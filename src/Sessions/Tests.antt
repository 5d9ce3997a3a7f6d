-- ===== src/Sessions/Tests.antt =====
-- The registry of sessions on concrete callers.
use data_looker.Prelude.{◌≡◌, refl, none, [], ◌∷◌, inl, inr}
use data_looker.Text.{codes}
use data_looker.Map.{get}
use data_looker.Sessions.{
  reader, agent, Session, bigquery_session, Registry, look, closes, land, closing, drops, steps,
}
use data_looker.Sessions.Closing.{land-closed}

abbrev first_session : Session
first_session = bigquery_session (codes "project") (codes "EU")

abbrev empty : Registry
empty = record { open_sessions = []; closed = [] }

land-closed_example :
    land
      (steps empty (drops (codes "a") agent ∷ closing (codes "c") ∷ []))
      (codes "c")
      reader
      0
      first_session
    ≡ (none, steps empty (drops (codes "a") agent ∷ closing (codes "c") ∷ []))
unfolding look closes get
land-closed_example =
    land-closed empty (drops (codes "a") agent ∷ closing (codes "c") ∷ []) (codes "c") reader 0
      first_session refl (inr (inl refl))
