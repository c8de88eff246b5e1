-- ===== src/Resources/PvcSource/Contained.antt =====
-- The path below the source claim that internal/resources/pvcsource.go puts into the ConfigMap, for the
-- specs that api/v1alpha1/validation.go lets through.
use mathlib.Core.Bool.{false≢true}
use mathlib.Core.Path.{◌∙◌}
use karkive.Prelude.{
  String, ◌≡◌, refl, ◌⊎◌, inl, inr, none, ◌==◌, All, Bool-cases, IsPlainPart, clean-IsPlainPart,
  split_slash, if◌then◌else◌, clean, sym,
}
use karkive.Api.Backup.{Backup, PvcSourceSpec}
use karkive.Validation.{External, validate_backup_spec}
use karkive.Validation.Predicates.{IsRelativePath}
use karkive.Validation.Laws.{validate_backup_spec_iff}
use karkive.Resources.PvcSource.{pvc_source, pvc_source_path}

-- The root of the claim, or a relative path without empty, "." and ".." elements.
abbrev pub IsContained : String → Type 0
IsContained path = (path ≡ "") ⊎ All IsPlainPart (split_slash path)

cleaned :
    (path : String)
    → IsRelativePath path
    → IsContained (if clean path == "." then "" else clean path)
cleaned path (relative, up, _) = elim (Bool-cases (clean path == ".")) [
  | inl root ↦ inl (rw root refl)
  | inr below ↦ elim (clean-IsPlainPart path relative up) [
    | inl root ↦ absurd (false≢true (sym below ∙ rw root refl))
    | inr parts ↦ inr (rw below parts)
  ]
]

path-IsContained :
    (src : PvcSourceSpec) → IsRelativePath src.path → IsContained (pvc_source_path src)
unfolding pvc_source_path
path-IsContained src relative = elim (Bool-cases (src.path == "")) [
  | inl empty ↦ inl (rw empty refl)
  | inr given ↦ rw given (cleaned src.path relative)
]

-- For every Backup spec that ValidateBackupSpec lets through, the path that pvcSourcePath computes
-- stays in the claim: it is the root, or a relative path whose elements are neither empty nor "." nor
-- "..".
pub pvc_source_path-IsContained :
    (ext : External) (backup : Backup)
    → validate_backup_spec ext backup.spec ≡ none
    → IsContained (pvc_source_path (pvc_source backup))
unfolding pvc_source pvc_source_path
pvc_source_path-IsContained ext backup valid =
    elim ((validate_backup_spec_iff ext backup.spec).0 valid).source [
      | inl (_, (src, given, ok_src)) ↦ rw given (path-IsContained src ok_src.path)
      | inr (_, absent, _) ↦ rw absent (inl refl)
    ]
