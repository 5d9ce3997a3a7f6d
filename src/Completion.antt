-- ===== src/Completion.antt =====
-- src-tauri/src/app/completion.rs: what is remembered of tables, and the analyzer's answer as what
-- the editor shows, with the offsets of the one as those of the other.
mod Offsets
mod Forgetting
mod Tests
use data_looker.Prelude.{
  ℕ, suc, ◌+◌, ◌-◌, ◌%◌, ◌^◌, ◌≡◌, Bool, true, false, not, Option, none, some, List, [], ◌∷◌, ◌++◌,
  ◌==◌, leb, if◌then◌else◌, flat_map, map, min, length,
}
use data_looker.Text.{Text, codes, text_eq}
use data_looker.Text.Utf8.{encode_char, as_bytes, len_utf8, len_utf16}
use data_looker.Map.{Map, Eq, text_is_eq, get, insert, remove, or_default}
use mathlib.Core.Option

-- Both ends of what is replaced.
pub record TextSpan : Type 0 where
  pub start : ℕ
  pub end : ℕ

pub data CandidateKind : Type 0 where
  column_kind field_kind range_variable_kind : CandidateKind

pub record Candidate : Type 0 where
  pub name : Text
  pub kind : CandidateKind
  pub type_name : Option Text
  pub qualifier : Option Text
  pub depth : ℕ

pub data Completion : Type 0 where
  nothing : Completion
  tables : TextSpan → List Text → Completion
  names : TextSpan → Option Text → List Candidate → Completion

-- A column or a field that the analyzer names.
pub record Typed : Type 0 where
  pub name : Text
  pub type_name : Text
  pub qualifier : Option Text

pub record Scope : Type 0 where
  pub columns : List Typed
  pub range_variables : List Text

-- An answer that needs no more tables: `needs` is empty when it gets here.
pub record Answer : Type 0 where
  pub replace : Option TextSpan
  pub context : Option Text
  pub path : List Text
  pub expected_type : Option Text
  pub fields : List Typed
  pub scopes : List Scope

-- `byte_offset`: `at` is where the text stands, and `counted` the units before it, in 32 bits.
unfoldable pub byte_offset_from : Text → ℕ → ℕ → ℕ → ℕ
byte_offset_from [] units at counted = at
byte_offset_from (c ∷ cs) units at counted =
    let rest = byte_offset_from cs units (at + len_utf8 c) ((counted + len_utf16 c) % 2 ^ 32) in
    if leb units counted then at else rest

unfoldable pub byte_offset : Text → ℕ → ℕ
unfolding byte_offset_from
byte_offset text units = byte_offset_from text units 0 0

-- none where the bytes end inside a character, where slicing the text panics.
unfoldable pub utf16_offset : Text → ℕ → Option ℕ
utf16_offset [] bytes = some 0
utf16_offset (c ∷ cs) bytes =
    let rest = utf16_offset cs (bytes - len_utf8 c) in
    if bytes == 0
    then some 0
    else (if leb (len_utf8 c) bytes
        then Option.map (λ n. (len_utf16 c + n) % 2 ^ 32) rest
        else none)

abbrev pub field_candidate : Typed → Candidate
field_candidate f = record {
  name = f.name;
  kind = field_kind;
  type_name = some f.type_name;
  qualifier = none;
  depth = 0;
}

abbrev pub name_candidate : ℕ → Text → Candidate
name_candidate depth n = record {
  name = n;
  kind = range_variable_kind;
  type_name = none;
  qualifier = none;
  depth = depth;
}

abbrev pub column_candidate : ℕ → Typed → Candidate
column_candidate depth c = record {
  name = c.name;
  kind = column_kind;
  type_name = some c.type_name;
  qualifier = c.qualifier;
  depth = depth;
}

unfoldable pub scope_candidates : Scope → ℕ → List Candidate
scope_candidates scope depth =
    map (name_candidate depth) scope.range_variables ++ map (column_candidate depth) scope.columns

unfoldable pub name_candidates : List Scope → ℕ → List Candidate
unfolding scope_candidates
name_candidates [] depth = []
name_candidates (scope ∷ scopes) depth =
    scope_candidates scope depth ++ name_candidates scopes (suc depth)

-- What is replaced, by the editor's offsets; none where the source panics.
unfoldable pub text_span : Text → TextSpan → Option TextSpan
unfolding utf16_offset
text_span text span =
    let end = utf16_offset text span.end in
    elim (utf16_offset text span.start) [
      | none ↦ none
      | some s ↦ Option.map (λ e. record { start = s; end = e }) end
    ]

unfoldable pub of_context : Answer → TextSpan → Option Text → Completion
unfolding name_candidates
of_context a replace none = nothing
of_context a replace (some context) =
    if text_eq context (codes "table")
    then tables replace a.path
    else (if text_eq context (codes "member")
        then names replace a.expected_type (map field_candidate a.fields)
        else (if text_eq context (codes "name")
            then names replace a.expected_type (name_candidates a.scopes 0)
            else nothing))

unfoldable pub into_completion : Answer → Text → Option Completion
unfolding text_span of_context
into_completion a text = elim a.replace [
  | none ↦ some nothing
  | some span ↦ Option.map (λ r. of_context a r a.context) (text_span text span)
]

-- What a table holds, none when there is no such table, and when it was learnt.
pub record Known (Columns : Type 0) : Type 0 where
  pub columns : Option Columns
  pub at : ℕ

-- Project, dataset and table.
abbrev pub TablePath : Type 0
TablePath = Text × Text × Text

pub record Catalog (Columns : Type 0) : Type 0 where
  pub tables : Map Text (Map TablePath (Known Columns))
  pub forgotten : Map Text ℕ

module _ {Columns : Type 0} ⦃e : Eq TablePath⦄ where
  unfoldable pub generation : Catalog Columns → Text → ℕ
  generation c id = or_default (get c.forgotten id)

  unfoldable pub learn :
      Catalog Columns → Text → ℕ → TablePath → Option Columns → ℕ → Bool × Catalog Columns
  unfolding generation
  learn c id seen path columns now =
      let of_id : Map TablePath (Known Columns) = elim (get c.tables id) [
        | none ↦ []
        | some ts ↦ ts
      ] in
      let known : Known Columns = record { columns = columns; at = now } in
      if generation c id == seen
      then (true, record c { tables = insert c.tables id (insert of_id path known) })
      else (false, c)

  unfoldable pub forget : Catalog Columns → Text → Catalog Columns
  unfolding generation
  forget c id = record {
    tables = remove c.tables id;
    forgotten = insert c.forgotten id (suc (generation c id));
  }
