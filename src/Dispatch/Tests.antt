-- ===== src/Dispatch/Tests.antt =====
-- A BigQuery connection is not edited.
use data_looker.Prelude.{◌≡◌, refl, []}
use data_looker.Text.{codes}
use data_looker.Error.{ok, err}
use data_looker.Sessions.{bigquery_session}
use data_looker.Dispatch.{Backends, read_only, plan_edits, indexes}

no_edits :
    (d : Backends) (edits : d.Edits) (s : d.Server)
    → plan_edits d (bigquery_session (codes "p") (codes "US")) (codes "d") (codes "t") edits s
      ≡ (err (read_only (codes "be edited")), s)
unfolding plan_edits
no_edits d edits s = refl

no_indexes :
    (d : Backends) (s : d.Server)
    → indexes d (bigquery_session (codes "p") (codes "US")) (codes "d") (codes "t") s ≡ (ok [], s)
unfolding indexes
no_indexes d s = refl
