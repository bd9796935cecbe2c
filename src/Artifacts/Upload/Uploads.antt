-- ===== src/Artifacts/Upload/Uploads.antt =====
-- `upload_artifact`: nothing on failure, a ready artifact on success.
use keviq_core.Prelude.{
  is_blank, ℕ, ◌+◌, ◌≡◌, refl, ap, ◌∙◌, String, some, none, List, ◌∷◌, [], ◌++◌, length,
  length-snoc, Bool-cases, inl, inr, lower, Codes, ℤ, arith,
}
use keviq_core.Prelude.Tables
use keviq_core.Errors.{raise_if, domain_validation, Result, ok}
use keviq_core.Transaction.Outcomes.{
  Outcome, returned, raised, Outcome-bind, Outcome-lift, Outcome-weaken,
}
use keviq_core.Artifacts.Artifact
use keviq_core.Artifacts.Artifact.{
  Artifact, ArtifactStatus, ArtifactArgs, validate, pending, ready, upload,
}
use keviq_core.Artifacts.Artifact.Ready.{
  IsComplete, complete, begins, finalizes, call, call-IsComplete, begin_writing-moves,
  finalize-moves,
}
use keviq_core.Artifacts.Provenance
use keviq_core.Artifacts.Provenance.{Provenance}
use keviq_core.Artifacts.Store.{
  Db, Session, save_artifact, invocation_taken, save_provenance, provenance_taken, to_row, write,
  commit, with_uow, ask,
}
use keviq_core.Artifacts.Services.{create, parse_artifact_type}
use keviq_core.Artifacts.Services.Steps.{Keeps, correlate-Outcome}
use keviq_core.Artifacts.Upload.{
  UploadArtifact, upload_args, upload_provenance, storage_key, persist, upload_artifact,
}

lift-Keeps :
    {A : Type 0} (c : Db) (r : Result A) (s : Session)
    → Keeps c s
    → Outcome (λ a s'. (r ≡ ok a) × Keeps c s') (Keeps c) (r, s)
lift-Keeps c r s k = Outcome-lift {P = Keeps c} r s k (λ k. k)

create-Outcome :
    (c : Db) (args : ArtifactArgs) (s : Session)
    → Keeps c s
    → Outcome
        (λ a s'. ((a.artifact_status ≡ pending) × (a.checksum ≡ none)) × Keeps c s')
        (Keeps c)
        (create args s)
unfolding create Artifact.new
create-Outcome c args s k =
    Outcome-bind (lift-Keeps c (raise_if (is_blank args.name) domain_validation) s k)
      (λ _ t (_, k). returned _ _ ((refl, refl), k))

-- Both rows and three events have been committed.
pub record Persisted (a : Artifact) (p : Provenance) (c d : Db) : Type 0 where
  pub artifacts : d.artifacts ≡ Tables.save (λ r. r.id) (to_row a) c.artifacts
  pub provenance : d.provenance ≡ Tables.save (λ r. r.id) p c.provenance
  pub edges : d.edges ≡ c.edges
  pub outbox : length d.outbox ≡ length c.outbox + 3

length-snoc₃ :
    {A : Type 0} (xs : List A) (x y z : A)
    → length (((xs ++ x ∷ []) ++ y ∷ []) ++ z ∷ []) ≡ length xs + 3
length-snoc₃ xs x y z = omega (
  arith,
  length-snoc xs x,
  length-snoc (xs ++ x ∷ []) y,
  length-snoc ((xs ++ x ∷ []) ++ y ∷ []) z,
)

module _ (sha256 : List ℕ → Codes) (show_uuid : ℕ → String)
    (write_content : String → List ℕ → Result (Unit {0})) where
  persist-Outcome :
      (c : Db) (cid : ℕ) (key : String) (sum : Codes) (size : ℤ) (p : Provenance) (a : Artifact)
      (s : Session)
      → Keeps c s
      → Outcome
          (λ b s'. (b ≡ a) × Persisted a p c s'.committed)
          (Keeps c)
          (persist sha256 show_uuid write_content cid key sum size p a s)
  unfolding persist save_artifact save_provenance write commit with_uow
  persist-Outcome c cid key sum size p a s k =
      elim (Bool-cases (invocation_taken a s.committed.artifacts)) [
        | inl taken ↦ rw (taken, save_artifact) (raised _ _ k)
        | inr free ↦ elim (Bool-cases (provenance_taken p s.committed.provenance)) [
          | inl taken ↦ rw (free, save_artifact, taken, save_provenance) (raised _ _ k)
          | inr new ↦
              rw (free, save_artifact, new, save_provenance)
                (returned _ _ (
                  refl,
                  record {
                    artifacts = ap (λ d. Tables.save (λ r. r.id) (to_row a) d.artifacts) k;
                    provenance = ap (λ d. Tables.save (λ r. r.id) p d.provenance) k;
                    edges = ap (λ d. d.edges) k;
                    outbox =
                        length-snoc₃ s.committed.outbox _ _ _ ∙ ap (λ d. length d.outbox + 3) k;
                  },
                ))
        ]
      ]

  -- A ready artifact with the digest of the content, its length and its place in the storage has been
  -- committed.
  pub record Uploaded (u : UploadArtifact) (a : Artifact) (c d : Db) : Type 0 where
    pub is_ready : a.artifact_status ≡ ready
    pub checksum : a.checksum ≡ some (lower (sha256 u.content))
    pub size_bytes : a.size_bytes ≡ some (ℤ.pos (length u.content))
    pub storage_ref :
        a.storage_ref ≡ some (storage_key sha256 show_uuid write_content u.workspace_id a.id)
    pub is_complete : IsComplete a
    pub of : Provenance
    pub persisted : Persisted a of c d

  Uploaded-of :
      (u : UploadArtifact) (q : Provenance) (c d : Db) (a begun final : Artifact)
      (x y : ArtifactStatus) (t₁ t₂ t₃ : ℕ)
      → (a.artifact_status ≡ pending) × (a.checksum ≡ none)
      → Artifact.begin_writing (storage_key sha256 show_uuid write_content u.workspace_id a.id) t₁ a
        ≡ ok (x, begun)
      → Artifact.finalize (sha256 u.content) (ℤ.pos (length u.content)) q t₂ t₃ begun
        ≡ ok (y, final)
      → Persisted final q c d
      → Uploaded u final c d
  unfolding call
  Uploaded-of u q c d a begun final x y t₁ t₂ t₃ (is_pending, none_yet) e f persisted =
      let key = storage_key sha256 show_uuid write_content u.workspace_id a.id in
      let (_, begun_eq) = begin_writing-moves key t₁ a x begun e in
      let (_, _, _, _, _, final_eq) =
        finalize-moves (sha256 u.content) (ℤ.pos (length u.content)) q t₂ t₃ begun y final f in
      let begun_complete =
        call-IsComplete (begins key t₁) a x begun (complete pending is_pending none_yet) e in
      record {
        is_ready = rw final_eq refl;
        checksum = rw final_eq refl;
        size_bytes = rw final_eq refl;
        storage_ref = rw (final_eq, begun_eq) refl;
        is_complete =
            call-IsComplete (finalizes (sha256 u.content) (ℤ.pos (length u.content)) q t₂ t₃) begun
              y final begun_complete f;
        of = q;
        persisted = persisted;
      }

  -- An upload that raises, at whatever point, commits nothing. One that returns an artifact has
  -- committed it as ready, with the digest of the content in lower case as its checksum, the length of
  -- the content as its size and the key of its own identifier as its place in the storage.
  pub upload_artifact-Outcome :
      (u : UploadArtifact) (s : Session)
      → Outcome
          (λ a s'. Uploaded u a s.committed s'.committed)
          (Keeps s.committed)
          (upload_artifact sha256 show_uuid write_content u s)
  unfolding upload_artifact ask
  upload_artifact-Outcome u s =
      let c = s.committed in
      Outcome-bind (correlate-Outcome u.correlation_id s) (λ cid t k.
        Outcome-bind (lift-Keeps c (parse_artifact_type u.artifact_type) t k) (λ type t (_, k).
          Outcome-bind (create-Outcome c (upload_args u type) t k) (λ a t (fresh, k).
            let p = upload_provenance a.id cid (t.uuids t.draws) in
            Outcome-bind
              (lift-Keeps c (Provenance.post_init p) (record t { draws = t.draws + 1 }) k)
              (λ q t (_, k).
                let key = storage_key sha256 show_uuid write_content u.workspace_id a.id in
                Outcome-bind
                  (lift-Keeps c (Artifact.begin_writing key (t.clock t.reads) a)
                    (record t { reads = t.reads + 1 }) k)
                  (λ (x, begun) t (begins_ok, k).
                    Outcome-bind (lift-Keeps c (write_content key u.content) t k) (λ _ t (_, k).
                      Outcome-bind
                        (lift-Keeps c
                          (Artifact.finalize (sha256 u.content) (ℤ.pos (length u.content)) q
                            (t.clock t.reads) (t.clock (t.reads + 1)) begun)
                          _ k)
                        (λ (y, final) t (final_ok, k).
                          Outcome-weaken
                            (persist-Outcome c cid key (sha256 u.content) (ℤ.pos (length u.content))
                              q final t k)
                            (λ b t' (same, persisted). rw same (
                              Uploaded-of u q c t'.committed a begun final x y _ _ _ fresh begins_ok
                                final_ok persisted)))))))))
