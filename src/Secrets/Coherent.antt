-- ===== src/Secrets/Coherent.antt =====
-- What was read of the secrets is what the keychain has.
use data_looker.Prelude.{
  ◌≡◌, ◌⊎◌, inl, inr, refl, sym, false, Option, none, some, arith, Option-cases, Bool-cases, subst,
}
use data_looker.Text.{Text, text_eq}
use data_looker.Map.{text_is_eq, get, insert, remove, is_some}
use data_looker.Error.{AppError, ok, err, Result-cases}
use data_looker.Secrets.{
  bundle, Secrets, Items, Bundled, parsed, loaded, change, move_in, get_in, get_secret, set_secret,
  remove_own, delete_in, delete_secret,
}

-- What a keychain documents of its items, and `serde_json` of what it wrote itself.
pub record Keeps (k : Items) : Type 0 where
  pub contents : k.State → Text → Option Text
  pub read-contents :
      (n : Text) (s : k.State) (o : Option Text) → k.read_item n s ≡ ok o → contents s n ≡ o
  pub write-ok :
      (n t : Text) (s : k.State)
      → (k.write_item n t s).0 ≡ ok tt
      → contents (k.write_item n t s).1 n ≡ some t
  pub write-err :
      (n t : Text) (s : k.State) (e : AppError) (m : Text)
      → (k.write_item n t s).0 ≡ err e
      → contents (k.write_item n t s).1 m ≡ contents s m
  pub remove-other :
      (n m : Text) (s : k.State)
      → text_eq n m ≡ false
      → contents (k.remove_item n s).1 m ≡ contents s m
  pub from-to_json :
      (m : Secrets) (j : Text)
      → k.to_json m ≡ ok j
      → (m' : Secrets) × (k.from_json j ≡ ok m') × ((id : Text) → get m' id ≡ get m id)

module _ (keychain : Items) (laws : Keeps keychain) where
  open keychain use {State, read_item, write_item, remove_item, to_json, from_json}

  -- What the bundle's item holds reads as these secrets.
  abbrev pub Mirrors : Option Text → Secrets → Type 0
  Mirrors o m = (m' : Secrets) × (parsed keychain o ≡ ok m') × ((id : Text) → get m' id ≡ get m id)

  abbrev pub Holds : State → Option Secrets → Type 0
  Holds s none = Unit
  Holds s (some m) = Mirrors (laws.contents s bundle) m

  abbrev pub IsCoherent : Bundled State → Type 0
  IsCoherent b = Holds b.items b.read

  Holds-same :
      (s t : State) (o : Option Secrets)
      → laws.contents t bundle ≡ laws.contents s bundle
      → Holds s o
      → Holds t o
  Holds-same s t none e h = tt
  Holds-same s t (some m) e h = subst (λ c. Mirrors c m) (sym e) h

  parsed-some : (j : Text) (m : Secrets) → from_json j ≡ ok m → parsed keychain (some j) ≡ ok m
  unfolding parsed
  parsed-some j m e = ground arith

  loaded-cases :
      (b : Bundled State)
      → ((loaded keychain b).1 ≡ b)
        ⊎ ((o : Option Text) × (m : Secrets) × (read_item bundle b.items ≡ ok o)
            × (parsed keychain o ≡ ok m)
            × ((loaded keychain b).1 ≡ record { items = b.items; read = some m }))
  unfolding loaded
  loaded-cases b = elim (Option-cases b.read) [
    | inl e ↦ elim (Result-cases (read_item bundle b.items)) [
      | inl (o, f) ↦ elim (Result-cases (parsed keychain o)) [
        | inl (m, g) ↦ inr (o, m, f, g, ground arith)
        | inr (x, g) ↦ inl (ground arith)
      ]
      | inr (x, f) ↦ inl (ground arith)
    ]
    | inr (m, e) ↦ inl (ground arith)
  ]

  loaded-IsCoherent : (b : Bundled State) → IsCoherent b → IsCoherent (loaded keychain b).1
  loaded-IsCoherent b h = elim (loaded-cases b) [
    | inl e ↦ rw e h
    | inr (o, m, f, g, e) ↦ rw (e, laws.read-contents bundle b.items o f) (m, g, λ id. refl)
  ]

  change-cases :
      (m : Secrets) (b : Bundled State)
      → ((change keychain m b).1 ≡ b)
        ⊎ ((j : Text) × (x : AppError) × ((write_item bundle j b.items).0 ≡ err x)
            × ((change keychain m b).1
                ≡ record { items = (write_item bundle j b.items).1; read = b.read }))
        ⊎ ((j : Text) × (to_json m ≡ ok j)
            × ((write_item bundle j b.items).0 ≡ ok tt)
            × ((change keychain m b).1
                ≡ record { items = (write_item bundle j b.items).1; read = some m }))
  unfolding change
  change-cases m b = elim (Result-cases (to_json m)) [
    | inl (j, e) ↦ elim (Result-cases (write_item bundle j b.items).0) [
      | inl (u, f) ↦ inr (inr (j, e, f, ground arith))
      | inr (x, f) ↦ inr (inl (j, x, f, ground arith))
    ]
    | inr (x, e) ↦ inl (ground arith)
  ]

  change-IsCoherent :
      (m : Secrets) (b : Bundled State) → IsCoherent b → IsCoherent (change keychain m b).1
  change-IsCoherent m b h = elim (change-cases m b) [
    | inl e ↦ rw e h
    | inr (inl (j, x, f, e)) ↦ rw e (
        Holds-same b.items (write_item bundle j b.items).1 b.read
          (laws.write-err bundle j b.items x bundle f) h)
    | inr (inr (j, e, f, g)) ↦ rw (g, laws.write-ok bundle j b.items f) (mirrored m j e)
  ]
    where
      mirrored : (m : Secrets) (j : Text) → to_json m ≡ ok j → Mirrors (some j) m
      mirrored m j e = let (m', p, same) = laws.from-to_json m j e in (m', parsed-some j m' p, same)

  removed-IsCoherent :
      (id : Text) (b : Bundled State)
      → text_eq id bundle ≡ false
      → IsCoherent b
      → IsCoherent (record { items = (remove_item id b.items).1; read = b.read })
  removed-IsCoherent id b n h =
      Holds-same b.items (remove_item id b.items).1 b.read (laws.remove-other id bundle b.items n) h

  move_in-IsCoherent :
      (m : Secrets) (id text : Text) (b : Bundled State)
      → text_eq id bundle ≡ false
      → IsCoherent b
      → IsCoherent (move_in keychain m id text b).1
  unfolding move_in
  move_in-IsCoherent m id text b n h =
      let changed = change keychain (insert m id text) b in
      let after = change-IsCoherent (insert m id text) b h in
      elim (Result-cases changed.0) [
        | inl (u, e) ↦
            let q : ((move_in keychain m id text b).1
                ≡ record { items = (remove_item id changed.1.items).1; read = changed.1.read }) =
              ground arith in
            rw q (removed-IsCoherent id changed.1 n after)
        | inr (x, e) ↦
            let q : ((move_in keychain m id text b).1 ≡ changed.1) = ground arith in rw q after
      ]

  get_in-IsCoherent :
      (m : Secrets) (id : Text) (b : Bundled State)
      → text_eq id bundle ≡ false
      → IsCoherent b
      → IsCoherent (get_in keychain m id b).1
  unfolding get_in
  get_in-IsCoherent m id b n h = elim (Option-cases (get m id)) [
    | inl e ↦ elim (Result-cases (read_item id b.items)) [
      | inl (o, f) ↦ elim (Option-cases o) [
        | inl g ↦ let q : ((get_in keychain m id b).1 ≡ b) = ground arith in rw q h
        | inr (text, g) ↦
            let q : ((get_in keychain m id b).1 ≡ (move_in keychain m id text b).1) =
              ground arith in
            rw q (move_in-IsCoherent m id text b n h)
      ]
      | inr (x, f) ↦ let q : ((get_in keychain m id b).1 ≡ b) = ground arith in rw q h
    ]
    | inr (text, e) ↦ let q : ((get_in keychain m id b).1 ≡ b) = ground arith in rw q h
  ]

  delete_in-IsCoherent :
      (m : Secrets) (id : Text) (b : Bundled State)
      → text_eq id bundle ≡ false
      → IsCoherent b
      → IsCoherent (delete_in keychain m id b).1
  unfolding delete_in remove_own
  delete_in-IsCoherent m id b n h =
      let changed = change keychain (remove m id) b in
      let after = change-IsCoherent (remove m id) b h in
      elim (Bool-cases (is_some (get m id))) [
        | inl e ↦ elim (Result-cases changed.0) [
          | inl (u, f) ↦
              let q : ((delete_in keychain m id b).1
                  ≡ record { items = (remove_item id changed.1.items).1; read = changed.1.read }) =
                ground arith in
              rw q (removed-IsCoherent id changed.1 n after)
          | inr (x, f) ↦
              let q : ((delete_in keychain m id b).1 ≡ changed.1) = ground arith in rw q after
        ]
        | inr e ↦
            let q : ((delete_in keychain m id b).1
                ≡ record { items = (remove_item id b.items).1; read = b.read }) =
              ground arith in
            rw q (removed-IsCoherent id b n h)
      ]

  -- Whatever fails on the way, reading, storing or deleting a secret leaves what was read of the
  -- secrets, if it was read, the same as what the keychain's item reads as, if it was before. The id
  -- is not the name of that item.
  pub secrets-IsCoherent :
      (id text : Text) (b : Bundled State)
      → text_eq id bundle ≡ false
      → IsCoherent b
      → IsCoherent (get_secret keychain id b).1
        × IsCoherent (set_secret keychain id text b).1
        × IsCoherent (delete_secret keychain id b).1
  unfolding get_secret set_secret delete_secret
  secrets-IsCoherent id text b n h =
      let b' = (loaded keychain b).1 in
      let k = loaded-IsCoherent b h in
      elim (Result-cases (loaded keychain b).0) [
        | inl (m, e) ↦
            let p : ((get_secret keychain id b).1 ≡ (get_in keychain m id b').1) = ground arith in
            let q : ((set_secret keychain id text b).1
                ≡ (change keychain (insert m id text) b').1) =
              ground arith in
            let r : ((delete_secret keychain id b).1 ≡ (delete_in keychain m id b').1) =
              ground arith in
            (
              rw p (get_in-IsCoherent m id b' n k),
              rw q (change-IsCoherent (insert m id text) b' k),
              rw r (delete_in-IsCoherent m id b' n k),
            )
        | inr (x, e) ↦
            let p : ((get_secret keychain id b).1 ≡ b') = ground arith in
            let q : ((set_secret keychain id text b).1 ≡ b') = ground arith in
            let r : ((delete_secret keychain id b).1 ≡ b') = ground arith in
            (rw p k, rw q k, rw r k)
      ]
