-- ===== src/Controller/Names.antt =====
-- The names of the mutations.
use Prim.Native.String.{[], ◌∷◌}
use k8sgpt_operator.Common.{
  ℕ, zero, suc, ◌+◌, ◌≤◌, String, false, ◌≡◌, ◌≢◌, refl, is_empty, arith, eq_iff,
}
use k8sgpt_operator.Text.{◌<>◌, take_text, text_length}
use k8sgpt_operator.Kube.{ObjectReference}
use k8sgpt_operator.Controller.Server.{Toolkit}
use k8sgpt_operator.Controller.Remediate.{identity, mutation_name}

text_length-append : (a b : String) → text_length (a <> b) ≡ text_length a + text_length b
unfolding text_length ◌<>◌
text_length-append [] b = omega arith
text_length-append (c ∷ a) b = let e = text_length-append a b in omega arith

take_text_le : (n : ℕ) (s : String) → text_length (take_text n s) ≤ n
unfolding text_length take_text
take_text_le zero s = omega arith
take_text_le (suc n) [] = omega arith
take_text_le (suc n) (c ∷ s) = let e = take_text_le n s in omega arith

dash_length : (s : String) → text_length ("-" <> s) ≡ suc (text_length s)
unfolding text_length ◌<>◌
dash_length s = refl

-- Where the start of the digest has the eight digits of four bytes and the resource has a UID, the
-- name of its mutation has at most 63 characters, however long the name of the result is.
pub mutation_name-fits :
    (t : Toolkit) (result_name : String) (r : ObjectReference)
    → ((text : String) → text_length (t.sha256_start text) ≡ 8)
    → r.uid ≢ ""
    → text_length (mutation_name t result_name r) ≤ 63
unfolding mutation_name
mutation_name-fits t result_name r digits known =
    let set : is_empty r.uid ≡ false = ground (arith, eq_iff r.uid "") in
    let prefix = take_text_le 54 result_name in
    let digest = digits (identity r) in
    let dash = dash_length (t.sha256_start (identity r)) in
    let whole =
      text_length-append (take_text 54 result_name) ("-" <> t.sha256_start (identity r)) in
    rw set (omega arith)
