-- ===== src/Postgres/Ddl/Views.antt =====
-- How the definition of a view ends.
use data_looker.Prelude.{
  ℕ, ◌≡◌, ◌≢◌, refl, sym, ap, ◌∙◌, [], ◌∷◌, ◌++◌, ◌==◌, All, All-append, arith, append-nil,
  append_assoc, Bool,
}
use data_looker.Text.{Text, trim_end, trim_end_matches, is_whitespace}
use data_looker.Text.Trim.{Passes, Fails, trim_end_matches-append}
use data_looker.Postgres.Ddl.{Relation, create_view}

abbrev is_semicolon : ℕ → Bool
is_semicolon c = c == b';'

create_view-body :
    (relation : Relation) (schema table b c : Text)
    → trim_end_matches is_semicolon (trim_end b) ≡ trim_end_matches is_semicolon (trim_end c)
    → create_view relation schema table b ≡ create_view relation schema table c
unfolding create_view
create_view-body relation schema table b c e = rw e refl

semicolon-Fails : (c : ℕ) → Passes is_semicolon c → Fails is_whitespace c
unfolding is_whitespace
semicolon-Fails c p = ground arith

semicolons-Fail : (s : Text) → All (Passes is_semicolon) s → All (Fails is_whitespace) s
semicolons-Fail [] a = tt
semicolons-Fail (c ∷ s) (p, a) = (semicolon-Fails c p, semicolons-Fail s a)

append-ne-nil : (d s : Text) → d ≢ [] → d ++ s ≢ []
append-ne-nil [] s h e = h refl
append-ne-nil (c ∷ d) s h e = ground arith

ending :
    (x d semicolons spaces : Text)
    → d ≢ []
    → All (Fails is_whitespace) d
    → All (Fails is_semicolon) d
    → All (Passes is_semicolon) semicolons
    → All (Passes is_whitespace) spaces
    → trim_end_matches is_semicolon (trim_end (((x ++ d) ++ semicolons) ++ spaces)) ≡ x ++ d
unfolding trim_end
ending x d semicolons spaces n w s ps pw =
    rw
      (
        append_assoc x d semicolons,
        trim_end_matches-append is_whitespace x (d ++ semicolons) spaces
            (append-ne-nil d semicolons n)
            (All-append (Fails is_whitespace) d semicolons w (semicolons-Fail semicolons ps)) pw,
        ← append_assoc x d semicolons,
      )
      (trim_end_matches-append is_semicolon x d semicolons n s ps)

-- The statement that makes a view is the same whether or not its definition ends in semicolons and
-- white space, as `pg_get_viewdef` has it, as long as what is before them ends in neither.
pub create_view-ending :
    (relation : Relation) (schema table x d semicolons spaces : Text)
    → d ≢ []
    → All (Fails is_whitespace) d
    → All (Fails is_semicolon) d
    → All (Passes is_semicolon) semicolons
    → All (Passes is_whitespace) spaces
    → create_view relation schema table (((x ++ d) ++ semicolons) ++ spaces)
      ≡ create_view relation schema table (x ++ d)
create_view-ending relation schema table x d semicolons spaces n w s ps pw =
    create_view-body relation schema table _ _ (
      ending x d semicolons spaces n w s ps pw
      ∙ sym (
          ap (λ b. trim_end_matches is_semicolon (trim_end b)) (sym (append-nil _ ∙ append-nil _))
          ∙ ending x d [] [] n w s tt tt))
