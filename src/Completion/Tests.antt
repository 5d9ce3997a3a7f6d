-- ===== src/Completion/Tests.antt =====
-- Offsets in a concrete text, and a catalog that is forgotten.
use data_looker.Prelude.{
  ℕ, ◌≡◌, ◌↔◌, refl, Bool, true, false, none, some, List, [], ◌∷◌, ◌++◌, inl, inr, arith, ◌&&◌,
}
use data_looker.Text.{Text, codes, text_eq, text_eq_iff}
use data_looker.Text.Utf8.{len_utf8, len_utf16}
use data_looker.Map.{Eq}
use data_looker.Completion.{
  Catalog, TablePath, byte_offset, byte_offset_from, utf16_offset, generation, learn,
}
use data_looker.Completion.Offsets.{offsets-round_trip, utf16_length, utf8_length}
use data_looker.Completion.Forgetting.{Operation, learning, forgetting, steps, learn-forgotten}

-- A character of two UTF-16 units and four bytes.
abbrev smile : Text
smile = codes "a" ++ 0x1F600 ∷ []

inside_a_character : byte_offset (smile ++ codes "b") 2 ≡ 5
unfolding byte_offset byte_offset_from len_utf8 len_utf16
inside_a_character = refl

offsets-round_trip_example :
    (byte_offset (smile ++ codes "b") (utf16_length smile) ≡ utf8_length smile)
    × (utf16_offset (smile ++ codes "b") (byte_offset (smile ++ codes "b") (utf16_length smile))
        ≡ some (utf16_length smile))
unfolding utf16_length len_utf16
offsets-round_trip_example = offsets-round_trip smile (codes "b") (omega arith)

abbrev path_eq : TablePath → TablePath → Bool
path_eq (a, b, c) (d, e, f) = text_eq a d && (text_eq b e && text_eq c f)

path_eq_iff : (p q : TablePath) → (path_eq p q ≡ true) ↔ (p ≡ q)
path_eq_iff (a, b, c) (d, e, f) = ground (arith, text_eq_iff a d, text_eq_iff b e, text_eq_iff c f)

instance abbrev path_is_eq : Eq TablePath
path_is_eq = record { beq = path_eq; beq_iff = path_eq_iff }

abbrev fresh : Catalog ℕ
fresh = record { tables = []; forgotten = [] }

abbrev a_path : TablePath
a_path = (codes "project", codes "dataset", codes "table")

abbrev meanwhile : List (Operation ℕ)
meanwhile = learning (codes "c") 0 a_path none 7 ∷ forgetting (codes "c") ∷ []

learn-forgotten_example :
    learn (steps fresh meanwhile) (codes "c") (generation fresh (codes "c")) a_path (some 4) 9
    ≡ (false, steps fresh meanwhile)
learn-forgotten_example =
    learn-forgotten fresh meanwhile (codes "c") a_path (some 4) 9 (inr (inl refl))
