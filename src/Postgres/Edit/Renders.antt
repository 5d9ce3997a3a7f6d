-- ===== src/Postgres/Edit/Renders.antt =====
-- How `render` walks a text that is put together from parts: quoted names, plain text and
-- placeholders.
use data_looker.Prelude.{
  ℕ, suc, ◌+◌, ◌≤◌, ◌≡◌, refl, sym, ap, subst, ◌∙◌, Bool, true, false, not, Option, none, some,
  List, [], ◌∷◌, ◌++◌, arith, length, get_elem?, All, length-append, append_assoc, append-nil,
}
use data_looker.Text.{Text, codes, join, is_digit}
use data_looker.Text.Decimal.{to_text, to_text-IsDigit, parse-to_text, IsDigit, usize_max}
use data_looker.Drivers.{TableShape}
use data_looker.Postgres.Edit.Plain.{is_plain}
use data_looker.Postgres.Quote.{literal}
use data_looker.Postgres.Edit.{
  Pairs, cast, numbered, pushed, split_digits, value_at, prepend, render,
}

-- `text` is written as `out`, whatever stands behind it.
pub record Renders (values : List (Option Text)) (text : Text) (out : Text) : Type 0 where
  pub at :
      (rest : Text)
      → render values false 0 (text ++ rest) ≡ prepend out (render values false 0 rest)

pub prepend-prepend : (a b : Text) (o : Option Text) → prepend a (prepend b o) ≡ prepend (a ++ b) o
prepend-prepend a b none = refl
prepend-prepend a b (some s) = ap some (sym (append_assoc a b s))

pub prepend-nil : (o : Option Text) → prepend [] o ≡ o
prepend-nil none = refl
prepend-nil (some s) = refl

module _ (values : List (Option Text)) where
  pub render-plain :
      (text : Text) (quoted : Bool) (rest : Text)
      → is_plain quoted text ≡ true
      → render values quoted 0 (text ++ rest) ≡ prepend text (render values false 0 rest)
  unfolding render is_plain
  render-plain [] true rest h = cc
  render-plain [] false rest h = sym (prepend-nil _)
  render-plain (c ∷ text) quoted rest h = ground (
    arith,
    render-plain text quoted rest,
    render-plain text (not quoted) rest,
    prepend-prepend (c ∷ []) text (render values false 0 rest),
  )

  pub Renders-plain : (text : Text) → is_plain false text ≡ true → Renders values text text
  Renders-plain text h = record { at = λ rest. render-plain text false rest h }

  pub Renders-append :
      (s t a b : Text) → Renders values s a → Renders values t b → Renders values (s ++ t) (a ++ b)
  Renders-append s t a b h k = record {
    at = λ rest.
        ap (render values false 0) (append_assoc s t rest)
        ∙ h.at (t ++ rest)
        ∙ ap (prepend a) (k.at rest)
        ∙ prepend-prepend a b (render values false 0 rest);
  }

  pub rendered-whole :
      (text out : Text) → Renders values text out → render values false 0 text ≡ some out
  rendered-whole text out h =
      ap (render values false 0) (sym (append-nil text))
      ∙ h.at []
      ∙ unfold render in ap some (append-nil out)

  pub render-skip :
      (quoted : Bool) (s rest : Text)
      → render values quoted (length s) (s ++ rest) ≡ render values quoted 0 rest
  unfolding render
  render-skip quoted [] rest = refl
  render-skip quoted (c ∷ s) rest = render-skip quoted s rest

pub split_digits-append :
    (d : Text) (c : ℕ) (rest : Text)
    → All IsDigit d
    → is_digit c ≡ false
    → split_digits (d ++ c ∷ rest) ≡ (d, c ∷ rest)
unfolding split_digits
split_digits-append [] c rest h k = ground arith
split_digits-append (x ∷ d) c rest h k = ground (arith, split_digits-append d c rest h.1 k)

module _ (values : List (Option Text)) where
  pub value_at-to_text :
      (n : ℕ) (v : Option Text)
      → suc n ≤ usize_max
      → get_elem? values n ≡ some v
      → value_at values (to_text (suc n)) ≡ some (literal v)
  unfolding value_at
  value_at-to_text n v h g = ground (arith, parse-to_text (suc n) h)

  pub render-dollar :
      (s d r v : Text)
      → split_digits s ≡ (d, r)
      → value_at values d ≡ some v
      → render values false 0 (b'$' ∷ s) ≡ prepend v (render values false (length d) s)
  unfolding render
  render-dollar s d r v e k = ground arith

  pub render-placeholder :
      (n : ℕ) (v : Option Text) (c : ℕ) (rest : Text)
      → suc n ≤ usize_max
      → get_elem? values n ≡ some v
      → is_digit c ≡ false
      → render values false 0 (b'$' ∷ (to_text (suc n) ++ c ∷ rest))
        ≡ prepend (literal v) (render values false 0 (c ∷ rest))
  render-placeholder n v c rest h g d =
      let digits = to_text (suc n) in
      render-dollar (digits ++ c ∷ rest) digits (c ∷ rest) (literal v)
        (split_digits-append digits c rest (to_text-IsDigit (suc n)) d) (value_at-to_text n v h g)
      ∙ ap (prepend (literal v)) (render-skip values false digits (c ∷ rest))

  -- A placeholder and the cast behind it.
  pub Renders-placeholder :
      (n : ℕ) (v : Option Text) (ty : Text)
      → suc n ≤ usize_max
      → get_elem? values n ≡ some v
      → is_plain false ty ≡ true
      → Renders values
          (b'$' ∷ (to_text (suc n) ++ (codes "::" ++ ty)))
          (literal v ++ (codes "::" ++ ty))
  Renders-placeholder n v ty h g plain = record { at = whole }
    where
      cast_of : Text
      cast_of = codes "::" ++ ty

      whole :
          (rest : Text)
          → render values false 0 ((b'$' ∷ (to_text (suc n) ++ cast_of)) ++ rest)
            ≡ prepend (literal v ++ cast_of) (render values false 0 rest)
      whole rest =
          ap (λ t. render values false 0 (b'$' ∷ t)) (append_assoc (to_text (suc n)) cast_of rest)
          ∙ render-placeholder n v b':' (b':' ∷ (ty ++ rest)) h g refl
          ∙ ap (prepend (literal v))
              ((Renders-plain values cast_of (unfold is_plain in plain)).at rest)
          ∙ prepend-prepend (literal v) cast_of (render values false 0 rest)

pub get_elem?-append :
    (before after : List (Option Text)) (v : Option Text)
    → get_elem? (before ++ v ∷ after) (length before) ≡ some v
get_elem?-append [] after v = refl
get_elem?-append (x ∷ before) after v = get_elem?-append before after v

-- Each text of a list is written as the one beside it.
unfoldable pub AllRender : List (Option Text) → List Text → List Text → Type 0
AllRender values [] outs = outs ≡ []
AllRender values (t ∷ ts) [] = ⊥
AllRender values (t ∷ ts) (o ∷ outs) = Renders values t o × AllRender values ts outs

module _ (values : List (Option Text)) where
  pub Renders-join :
      (sep : Text) (ts outs : List Text)
      → is_plain false sep ≡ true
      → AllRender values ts outs
      → Renders values (join sep ts) (join sep outs)
  unfolding join AllRender
  Renders-join sep [] [] p h = Renders-plain values [] (unfold is_plain in refl)
  Renders-join sep [] (o ∷ outs) p h = cc
  Renders-join sep (t ∷ ts) [] p h = absurd h
  Renders-join sep (t ∷ []) (o ∷ []) p h = h.0
  Renders-join sep (t ∷ []) (o ∷ o' ∷ outs) p h = cc
  Renders-join sep (t ∷ t' ∷ ts) (o ∷ []) p h = absurd h.1
  Renders-join sep (t ∷ t' ∷ ts) (o ∷ o' ∷ outs) p h =
      Renders-append values t (sep ++ join sep (t' ∷ ts)) o (sep ++ join sep (o' ∷ outs)) h.0 (
        Renders-append values sep (join sep (t' ∷ ts)) sep (join sep (o' ∷ outs))
          (Renders-plain values sep p) (Renders-join sep (t' ∷ ts) (o' ∷ outs) p h.1))

  pub AllRender-append :
      (ts ts' outs outs' : List Text)
      → AllRender values ts outs
      → AllRender values ts' outs'
      → AllRender values (ts ++ ts') (outs ++ outs')
  unfolding AllRender
  AllRender-append [] ts' [] outs' h k = k
  AllRender-append [] ts' (o ∷ outs) outs' h k = cc
  AllRender-append (t ∷ ts) ts' [] outs' h k = absurd h
  AllRender-append (t ∷ ts) ts' (o ∷ outs) outs' h k =
      (h.0, AllRender-append ts ts' outs outs' h.1 k)

-- The types of a table, as the catalog writes them, hold a `$` in quotes only.
abbrev pub HasPlainTypes : TableShape → Type 0
HasPlainTypes shape = (column : Text) → is_plain false (cast shape column) ≡ true

-- What stands for a pair when its value is put in.
abbrev pub filled : TableShape → (Text → Text) → Pairs → List Text
filled shape lead [] = []
filled shape lead ((column, v) ∷ ps) =
    (lead column ++ (literal v ++ (codes "::" ++ cast shape column))) ∷ filled shape lead ps

pub AllRender-numbered :
    (shape : TableShape) (lead : Text → Text)
    → HasPlainTypes shape
    → ((column : Text) → is_plain false (lead column) ≡ true)
    → (ps : Pairs) (before after : List (Option Text)) → length before + length ps ≤ usize_max
    → AllRender
        (before ++ (pushed ps ++ after))
        (numbered shape lead ps (length before))
        (filled shape lead ps)
unfolding AllRender
AllRender-numbered shape lead types leads [] before after h = refl
AllRender-numbered shape lead types leads ((column, v) ∷ ps) before after h = (
  Renders-append values (lead column) _ (lead column) _
      (Renders-plain values (lead column) (leads column))
      (Renders-placeholder values (length before) v (cast shape column) (omega arith)
        (get_elem?-append before (pushed ps ++ after) v) (types column)),
  subst (λ vs. AllRender vs (numbered shape lead ps (suc (length before))) (filled shape lead ps))
      (append_assoc before (v ∷ []) (pushed ps ++ after))
      (subst
        (λ k.
          AllRender ((before ++ v ∷ []) ++ (pushed ps ++ after)) (numbered shape lead ps k)
            (filled shape lead ps))
        (omega (arith, length-append before (v ∷ [])))
        (AllRender-numbered shape lead types leads ps (before ++ v ∷ []) after
          (omega (arith, length-append before (v ∷ []))))),
)
  where
    values : List (Option Text)
    values = before ++ (v ∷ (pushed ps ++ after))
