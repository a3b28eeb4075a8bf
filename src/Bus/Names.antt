-- ===== src/Bus/Names.antt =====
-- That the queues of src/bus.rs do not share names.
use ci.Common.{◌≡◌, sym, ◌∙◌, ap, [], ◌∷◌, ◌++◌, Text, codes, ok, arith}
use ci.Bus.{Route, to_runner, to_network, subject_for, is_subject_token}

append-cancel : (p x y : Text) → p ++ x ≡ p ++ y → x ≡ y
append-cancel [] x y h = h
append-cancel (c ∷ p) x y h = append-cancel p x y (ground arith)

subject_for-eq :
    (prefix : Text) (a : Route) (s : Text)
    → subject_for prefix a ≡ ok s
    → elim a [
      | to_runner id ↦ prefix ++ (codes ".job.r." ++ id)
      | to_network id ↦ prefix ++ (codes ".job.n." ++ id)
    ]
      ≡ s
unfolding subject_for is_subject_token
subject_for-eq prefix (to_runner id) s h = ground arith
subject_for-eq prefix (to_network id) s h = ground arith

-- Two routes that publish to the same subject are the same route.
pub subject_for-injective :
    (prefix : Text) (a b : Route) (s : Text)
    → subject_for prefix a ≡ ok s
    → subject_for prefix b ≡ ok s
    → a ≡ b
subject_for-injective prefix (to_runner x) (to_runner y) s h k =
    let e =
      append-cancel prefix _ _
        (subject_for-eq prefix (to_runner x) s h ∙ sym (subject_for-eq prefix (to_runner y) s k)) in
    ap to_runner (append-cancel (codes ".job.r.") x y e)
subject_for-injective prefix (to_runner x) (to_network y) s h k =
    let e =
      append-cancel prefix _ _ (
        subject_for-eq prefix (to_runner x) s h ∙ sym (subject_for-eq prefix (to_network y) s k)) in
    ground arith
subject_for-injective prefix (to_network x) (to_runner y) s h k =
    let e =
      append-cancel prefix _ _ (
        subject_for-eq prefix (to_network x) s h ∙ sym (subject_for-eq prefix (to_runner y) s k)) in
    ground arith
subject_for-injective prefix (to_network x) (to_network y) s h k =
    let e =
      append-cancel prefix _ _ (
        subject_for-eq prefix (to_network x) s h
        ∙ sym (subject_for-eq prefix (to_network y) s k)) in
    ap to_network (append-cancel (codes ".job.n.") x y e)
