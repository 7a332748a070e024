-- ===== src/Acl/Checking/Caller.antt =====
-- checkPermFromAcl of Assignment1/utils.c, called by a process that has taken its real id.
use nss_i_assignments.Base.{ℕ, ◌≡◌, ◌∙◌, ap, sym, subst, inl, refl, Bool, true, Bytes}
use nss_i_assignments.Host.{Host, Kernel}
use nss_i_assignments.Host.Ids.{as_caller}
use nss_i_assignments.Acl.Checking.{get_usr_name, check_perm_from_acl}
use nss_i_assignments.Acl.Checking.Decides.{
  Allows, check_perm_from_acl_iff, check_perm_from_acl-keeps,
}

-- A check leaves the state as it is: only its answer counts.
pub checked :
    (k : Kernel) (acl : Bytes) (perm : ℕ) (ok : Bool) (h : Host) {X : Type 0} (P : X → Type 0)
    (next : Bool × Host → X)
    → ((b : Bool)
        → (b ≡ true → Allows k acl (get_usr_name k h.ruid) perm ok (as_caller h))
        → P (next (b, as_caller h)))
    → P (next (check_perm_from_acl k acl (get_usr_name k h.ruid) perm ok (as_caller h)))
checked k acl perm ok h P next go =
    let answer : Bool × Host =
      check_perm_from_acl k acl (get_usr_name k h.ruid) perm ok (as_caller h) in
    subst (λ (s : Host). P (next (answer.0, s)))
      (sym
        (check_perm_from_acl-keeps k acl (get_usr_name k h.ruid) perm ok (as_caller h) (inl refl)))
      (go answer.0 (check_perm_from_acl_iff k acl (get_usr_name k h.ruid) perm ok (as_caller h)).0)

-- The whole answer where the ACL allows it.
pub check-Allows :
    (k : Kernel) (acl : Bytes) (perm : ℕ) (ok : Bool) (h : Host)
    → Allows k acl (get_usr_name k h.ruid) perm ok (as_caller h)
    → check_perm_from_acl k acl (get_usr_name k h.ruid) perm ok (as_caller h) ≡ (true, as_caller h)
check-Allows k acl perm ok h allowed =
    let name = get_usr_name k h.ruid in
    let answer : Bool × Host = check_perm_from_acl k acl name perm ok (as_caller h) in
    let yes : answer.0 ≡ true =
      (check_perm_from_acl_iff k acl name perm ok (as_caller h)).1 allowed in
    let same : answer.1 ≡ as_caller h =
      check_perm_from_acl-keeps k acl name perm ok (as_caller h) (inl refl) in
    ap (λ (b : Bool). (b, answer.1)) yes ∙ ap (λ (s : Host). (true, s)) same
