-- ===== src/Artifacts/Services/Complete.antt =====
-- What every stored artifact has on record, whatever the services do.
use keviq_core.Prelude.{ℕ, ◌≡◌, All}
use keviq_core.Prelude.Tables
use keviq_core.Artifacts.Artifact.{Artifact, ArtifactStatus}
use keviq_core.Artifacts.Artifact.Ready.{Record, IsComplete, complete, call-IsComplete}
use keviq_core.Artifacts.Store.{Db, to_row}
use keviq_core.Artifacts.Services.Handles.{Moved}

-- Every stored artifact has on record what its status asks for.
unfoldable pub IsSound : Db → Type 0
IsSound d = All IsComplete d.artifacts

Record-row : (s : ArtifactStatus) (a : Artifact) → Record s a → Record s (to_row a)
unfolding to_row
Record-row ArtifactStatus.pending a r = r
Record-row ArtifactStatus.writing a r = r
Record-row ArtifactStatus.ready a r = r
Record-row ArtifactStatus.failed a r = r

IsComplete-row : (a : Artifact) → IsComplete a → IsComplete (to_row a)
unfolding to_row
IsComplete-row a (complete s e r) = complete s e (Record-row s a r)

pub IsSound-save :
    (a : Artifact) (c d : Db)
    → d.artifacts ≡ Tables.save (λ r. r.id) (to_row a) c.artifacts
    → IsComplete a
    → IsSound c
    → IsSound d
unfolding IsSound
IsSound-save a c d e h all =
    rw e (Tables.All-save (λ r. r.id) IsComplete (to_row a) c.artifacts (IsComplete-row a h) all)

pub Moved-IsComplete :
    (c d : Db) (id : ℕ) (a : Artifact) → IsSound c → Moved c id a d → IsComplete a
unfolding IsSound
Moved-IsComplete c d id a all v =
    call-IsComplete v.by v.old v.prev a
      (Tables.All-find (λ r. r.id) IsComplete id v.old c.artifacts all v.found) v.moved
