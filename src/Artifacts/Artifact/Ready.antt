-- ===== src/Artifacts/Artifact/Ready.antt =====
-- What a move of an artifact establishes and what it keeps.
use keviq_core.Prelude.{
  ℕ, ◌≡◌, refl, sym, ◌∙◌, ◌⊎◌, inl, inr, Bool, true, false, String, Option, none, some, length,
  arith, Codes, lower, ℤ, is_negative,
}
use mathlib.Core.Path.{subst}
use keviq_core.Errors.{Error, Result, ok, err, Result-cases, type_error, terminal_state}
use keviq_core.Artifacts.Hex.{is_int_16}
use keviq_core.Artifacts.Provenance.{Provenance, is_incomplete}
use keviq_core.Artifacts.Artifact
use keviq_core.Artifacts.Artifact.{
  Artifact, ArtifactStatus, pending, writing, ready, failed, is_upload, Metadata, mapping, dumped,
  begin_writing, finalize, annotate, fail,
}

-- One of the calls that move an artifact, with its arguments.
pub data Call : Type 0 where
  begins : (storage_ref : String) (now : ℕ) → Call
  finalizes : Codes → ℤ → Provenance → (now now' : ℕ) → Call
  fails : Option String → Bool → (now now' : ℕ) → Call

unfoldable pub call : Call → Artifact → Result (ArtifactStatus × Artifact)
unfolding begin_writing finalize fail
call (begins storage_ref now) a = begin_writing storage_ref now a
call (finalizes checksum size p now now') a = finalize checksum size p now now' a
call (fails reason partial_data now now') a = fail reason partial_data now now' a

-- The checksum of a ready artifact: 64 characters that `int(text, 16)` takes, in lower case.
pub data IsDigest : Codes → Type 0 where
  digest : (text : Codes) → length text ≡ 64 → is_int_16 text ≡ true → IsDigest (lower text)

-- What an artifact has on record in a status.
abbrev pub Record : ArtifactStatus → Artifact → Type 0
Record pending a = a.checksum ≡ none
Record writing a = (a.checksum ≡ none) × ((ref : String) × (a.storage_ref ≡ some ref))
Record ready a =
    ((ref : String) × (a.storage_ref ≡ some ref))
    × ((sum : Codes) × (a.checksum ≡ some sum) × IsDigest sum)
    × ((size : ℕ) × (a.size_bytes ≡ some (ℤ.pos size)))
    × ((time : ℕ) × (a.ready_at ≡ some time))
Record failed a = (a.checksum ≡ none) × ((time : ℕ) × (a.failed_at ≡ some time))

-- An artifact has on record what its status asks for.
pub data IsComplete (a : Artifact) : Type 0 where
  complete : (s : ArtifactStatus) → a.artifact_status ≡ s → Record s a → IsComplete a

pub begin_writing-moves :
    (ref : String) (now : ℕ) (a : Artifact) (prev : ArtifactStatus) (a' : Artifact)
    → begin_writing ref now a ≡ ok (prev, a')
    → (a.artifact_status ≡ pending)
      × (a' ≡ record a { artifact_status = writing; updated_at = now; storage_ref = some ref })
unfolding begin_writing
begin_writing-moves ref now a prev a' h = ground (arith, h)

pub finalize-moves :
    (sum : Codes) (size : ℤ) (p : Provenance) (now now' : ℕ) (a : Artifact) (prev : ArtifactStatus)
    (a' : Artifact)
    → finalize sum size p now now' a ≡ ok (prev, a')
    → (a.artifact_status ≡ writing)
      × (length sum ≡ 64)
      × (is_int_16 sum ≡ true)
      × (is_negative size ≡ false)
      × (is_incomplete (is_upload a.root_type) p ≡ false)
      × (a' ≡ record a {
        artifact_status = ready;
        updated_at = now;
        checksum = some (lower sum);
        size_bytes = some size;
        ready_at = some now';
      })
unfolding finalize
finalize-moves sum size p now now' a prev a' h = ground (arith, h)

pub fail-moves :
    (reason : Option String) (partial_data : Bool) (now now' : ℕ) (a : Artifact)
    (prev : ArtifactStatus) (a' : Artifact)
    → fail reason partial_data now now' a ≡ ok (prev, a')
    → ((a.artifact_status ≡ pending) ⊎ (a.artifact_status ≡ writing))
      × (annotate reason partial_data a.metadata ≡ ok a'.metadata)
      × (a' ≡ record a {
        artifact_status = failed;
        updated_at = now;
        failed_at = some now';
        metadata = a'.metadata;
      })
unfolding fail annotate
fail-moves reason partial_data now now' a prev a' h = ground (arith, h)

Record-at : (a : Artifact) (t : ArtifactStatus) → IsComplete a → a.artifact_status ≡ t → Record t a
Record-at a t (complete s e r) h = subst (λ x. Record x a) (sym e ∙ h) r

size-pos : (size : ℤ) → is_negative size ≡ false → (n : ℕ) × (some size ≡ some (ℤ.pos n))
size-pos (ℤ.pos n) h = (n, refl)
size-pos (ℤ.negsuc n) h = cc

no_checksum :
    (a : Artifact)
    → IsComplete a
    → (a.artifact_status ≡ pending) ⊎ (a.artifact_status ≡ writing)
    → a.checksum ≡ none
no_checksum a c (inl it) = Record-at a pending c it
no_checksum a c (inr it) = (Record-at a writing c it).0

-- Each call leaves a complete artifact complete: in particular what is ready has a place in the
-- storage, a checksum in lower case of 64 characters that reads as a hexadecimal number, a size that is
-- not negative and a time, and no artifact that is not ready has a checksum.
pub call-IsComplete :
    (c : Call) (a : Artifact) (prev : ArtifactStatus) (a' : Artifact)
    → IsComplete a
    → call c a ≡ ok (prev, a')
    → IsComplete a'
unfolding call
call-IsComplete (begins ref now) a prev a' c h =
    let (old, same) = begin_writing-moves ref now a prev a' h in
    rw same (complete writing refl (Record-at a pending c old, (ref, refl)))
call-IsComplete (finalizes sum size p now now') a prev a' c h =
    let (old, long, hex, pos, full, same) = finalize-moves sum size p now now' a prev a' h in
    rw same (
      complete ready refl (
        (Record-at a writing c old).1,
        (lower sum, refl, digest sum long hex),
        size-pos size pos,
        (now', refl),
      ))
call-IsComplete (fails reason partial_data now now') a prev a' c h =
    let (old, _, same) = fail-moves reason partial_data now now' a prev a' h in
    rw same (complete failed refl (no_checksum a c old, (now', refl)))

call-live :
    (c : Call) (a : Artifact) (prev : ArtifactStatus) (a' : Artifact)
    → call c a ≡ ok (prev, a')
    → Artifact.artifact_terminal a.artifact_status ≡ false
unfolding call
call-live (begins ref now) a prev a' h = ground (arith, begin_writing-moves ref now a prev a' h)
call-live (finalizes sum size p now now') a prev a' h =
    ground (arith, finalize-moves sum size p now now' a prev a' h)
call-live (fails reason partial_data now now') a prev a' h =
    ground (arith, fail-moves reason partial_data now now' a prev a' h)

-- A ready or failed artifact is never moved again: every call raises, so its checksum, its size and its
-- place in the storage stay.
call-final :
    (c : Call) (a : Artifact)
    → Artifact.artifact_terminal a.artifact_status ≡ true
    → (e : Error) × (call c a ≡ err e)
call-final c a h = elim (Result-cases (call c a)) [
  | inl ((prev, a'), e) ↦ ground (arith, h, call-live c a prev a' e)
  | inr raised ↦ raised
]

-- An artifact whose metadata came back as text cannot be failed: the call raises, and `TypeError`
-- where the status lets it get that far.
pub fail-dumped :
    (reason : Option String) (partial_data : Bool) (now now' : ℕ) (a : Artifact)
    (d : Artifact.MetaDict)
    → a.metadata ≡ dumped d
    → fail reason partial_data now now' a
      ≡ err (
          Artifact.if◌then◌else◌
            (Artifact.artifact_terminal a.artifact_status)
            terminal_state
            type_error)
unfolding fail
fail-dumped reason partial_data now now' a d h = ground (arith, h)
