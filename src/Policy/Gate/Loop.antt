-- ===== src/Policy/Gate/Loop.antt =====
-- The tests of the gate on the list of changes.
use k8sgpt_operator.Common.{
  ℕ, ◌≤◌, String, ◌≡◌, ◌≢◌, ◌↔◌, inl, inr, refl, sym, ap, ◌∙◌, Bool, true, false, List, [], ◌∷◌,
  ◌++◌, map, none, some, ℤ, length, ltb, if◌then◌else◌, Bool-cases, Option-cases, arith, All,
}
use mathlib.Core.List.{append-nil, append_assoc}
use k8sgpt_operator.Json.{Json, null}
use k8sgpt_operator.Text.{◌<>◌, decimal}
use k8sgpt_operator.Policy.Types.{Change, PatchOperation, Decision, rejected_with_changes}
use k8sgpt_operator.Policy.Paths.{is_high_risk}
use k8sgpt_operator.Policy.Gate.{is_null, replace_operation, admit_changes, limit_of, check_changes}

-- A change that the loop of the gate passes.
abbrev pub IsAdmissible : (String → Bool) → Change → Type 0
IsAdmissible allowed c =
    (is_high_risk c.path ≡ false) × (allowed c.path ≡ true) × (c.old ≢ null) × (c.new ≢ null)

is_null_iff : (v : Json) → (is_null v ≡ true) ↔ (v ≡ null)
is_null_iff v = ground arith

pub admit_changes_iff :
    (allowed : String → Bool) (all cs : List Change) (patch : List PatchOperation)
    → ((admit_changes allowed all cs patch).allowed ≡ true) ↔ All (IsAdmissible allowed) cs
unfolding admit_changes
admit_changes_iff allowed all [] patch = (λ h. tt, λ h. refl)
admit_changes_iff allowed all (c ∷ cs) patch = ground (
  arith,
  is_null_iff c.old,
  is_null_iff c.new,
  admit_changes_iff allowed all cs (patch ++ replace_operation c ∷ []),
)

admit_changes_pass :
    (allowed : String → Bool) (all : List Change) (c : Change) (cs : List Change)
    (patch : List PatchOperation)
    → IsAdmissible allowed c
    → admit_changes allowed all (c ∷ cs) patch
      ≡ admit_changes allowed all cs (patch ++ replace_operation c ∷ [])
unfolding admit_changes
admit_changes_pass allowed all c cs patch h = ground (arith, is_null_iff c.old, is_null_iff c.new)

abbrev pub admitted : List Change → List PatchOperation → Decision
admitted changes patch = record { allowed = true; reasons = []; changes = changes; patch = patch }

pub admit_changes_patch :
    (allowed : String → Bool) (all cs : List Change) (patch : List PatchOperation)
    → All (IsAdmissible allowed) cs
    → admit_changes allowed all cs patch ≡ admitted all (patch ++ map replace_operation cs)
admit_changes_patch allowed all [] patch h =
    (unfold admit_changes in ap (admitted all) (sym (append-nil patch)))
admit_changes_patch allowed all (c ∷ cs) patch (h, hs) =
    admit_changes_pass allowed all c cs patch h
    ∙ admit_changes_patch allowed all cs (patch ++ replace_operation c ∷ []) hs
    ∙ ap (admitted all) (append_assoc patch (replace_operation c ∷ []) (map replace_operation cs))

-- What check_changes asks of the list of changes.
pub record IsWithin (allowed : String → Bool) (changes : List Change) (max_changed_paths : ℤ)
    : Type 0 where
  pub limit : ℕ
  pub limit_is : limit_of max_changed_paths ≡ some limit
  pub some_change : changes ≢ []
  pub few : length changes ≤ limit
  pub admissible : All (IsAdmissible allowed) changes

pub check_changes_negative :
    (allowed : String → Bool) (c : Change) (cs : List Change) (m : ℤ)
    → limit_of m ≡ none
    → check_changes allowed (c ∷ cs) m
      ≡ rejected_with_changes (c ∷ cs) "max changed paths must not be negative"
unfolding check_changes
check_changes_negative allowed c cs m e = rw e

pub check_changes-some :
    (allowed : String → Bool) (c : Change) (cs : List Change) (m : ℤ) (limit : ℕ)
    → limit_of m ≡ some limit
    → check_changes allowed (c ∷ cs) m ≡ (
        if ltb limit (length (c ∷ cs))
        then rejected_with_changes (c ∷ cs) (
            "proposal changes "
            <> decimal (length (c ∷ cs))
            <> " paths; maximum is "
            <> decimal limit)
        else admit_changes allowed (c ∷ cs) (c ∷ cs) [])
unfolding check_changes
check_changes-some allowed c cs m limit e = rw e

few_ltb : (n limit : ℕ) → n ≤ limit → ltb limit n ≡ false
few_ltb n limit h = ground arith

pub check_changes_sound :
    (allowed : String → Bool) (changes : List Change) (m : ℤ)
    → (check_changes allowed changes m).allowed ≡ true
    → IsWithin allowed changes m
unfolding check_changes
check_changes_sound allowed [] m h = cc
check_changes_sound allowed (c ∷ cs) m h = elim (Option-cases (limit_of m)) [
  | inl negative ↦ cc (ap (λ d. d.allowed) (check_changes_negative allowed c cs m negative))
  | inr (limit, e) ↦
      let same = ap (λ d. d.allowed) (check_changes-some allowed c cs m limit e) in
      elim (Bool-cases (ltb limit (length (c ∷ cs)))) [
        | inl over ↦ cc (rw over at same)
        | inr fits ↦ record {
          limit = limit;
          limit_is = e;
          some_change = λ z. cc;
          few = ground arith;
          admissible =
              (admit_changes_iff allowed (c ∷ cs) (c ∷ cs) []).0 (sym (rw fits at same) ∙ h);
        }
      ]
]

pub check_changes_complete :
    (allowed : String → Bool) (changes : List Change) (m : ℤ)
    → IsWithin allowed changes m
    → check_changes allowed changes m ≡ admitted changes (map replace_operation changes)
check_changes_complete allowed [] m w = absurd (w.some_change refl)
check_changes_complete allowed (c ∷ cs) m w =
    check_changes-some allowed c cs m w.limit w.limit_is
    ∙ rw (few_ltb (length (c ∷ cs)) w.limit w.few)
        (admit_changes_patch allowed (c ∷ cs) (c ∷ cs) [] w.admissible)
