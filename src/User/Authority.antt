-- ===== src/User/Authority.antt =====
-- Who can change the role and the status of a user (internal/domain/user/user.go).
use duragraph.Base.{not, ◌||◌, ◌≡◌, refl, Bool, false, List, [], ◌∷◌, String, arith}
use duragraph.Base.Text.{◌=ₛ◌, =ₛ_iff}
use duragraph.User.{
  User, set_password, mark_auth_method, approve, reject, suspend, resume, promote_to_admin,
  set_persisted_state,
}
use duragraph.User.Statuses.{pending, member}
use duragraph.User.Lifecycle.{
  Command, admit, turn_away, promote, execute, execute_all, Registered, Registered-start,
}

-- A promotion of the user `id` by someone else is among the commands.
abbrev pub promoted_by_other : String → List Command → Bool
promoted_by_other id [] = false
promoted_by_other id (promote by now ∷ cs) = not (by =ₛ id) || promoted_by_other id cs
promoted_by_other id (_ ∷ cs) = promoted_by_other id cs

-- An approval or a rejection of the user `id` by someone else is.
abbrev pub decided_by_other : String → List Command → Bool
decided_by_other id [] = false
decided_by_other id (admit by now ∷ cs) = not (by =ₛ id) || decided_by_other id cs
decided_by_other id (turn_away by reason now ∷ cs) = not (by =ₛ id) || decided_by_other id cs
decided_by_other id (_ ∷ cs) = decided_by_other id cs

id-execute : (c : Command) (u : User) → (execute c u).0.id ≡ u.id
unfolding execute approve reject suspend resume promote_to_admin set_password mark_auth_method
    set_persisted_state
id-execute (admit by now) u = ground arith
id-execute _ u = ground arith

-- A command that makes the user an admin is a promotion by someone else, and so for one that takes
-- the user out of the pending status.
member-execute :
    (c : Command) (cs : List Command) (u : User)
    → u.role ≡ member
    → promoted_by_other u.id (c ∷ cs) ≡ false
    → ((execute c u).0.role ≡ member) × (promoted_by_other u.id cs ≡ false)
unfolding execute approve reject suspend resume promote_to_admin set_password mark_auth_method
    set_persisted_state
member-execute (promote by now) cs u r p = ground (arith, =ₛ_iff by u.id)
member-execute _ cs u r p = ground arith

pending-execute :
    (c : Command) (cs : List Command) (u : User)
    → u.status ≡ pending
    → decided_by_other u.id (c ∷ cs) ≡ false
    → ((execute c u).0.status ≡ pending) × (decided_by_other u.id cs ≡ false)
unfolding execute approve reject suspend resume promote_to_admin set_password mark_auth_method
    set_persisted_state
pending-execute (admit by now) cs u r p = ground (arith, =ₛ_iff by u.id)
pending-execute (turn_away by reason now) cs u r p = ground (arith, =ₛ_iff by u.id)
pending-execute _ cs u r p = ground arith

member-execute_all :
    (cs : List Command) (u : User)
    → u.role ≡ member
    → promoted_by_other u.id cs ≡ false
    → (execute_all cs u).role ≡ member
unfolding execute_all
member-execute_all [] u r p = r
member-execute_all (c ∷ cs) u r p =
    let (still, rest) = member-execute c cs u r p in
    member-execute_all cs (execute c u).0 still (rw (id-execute c u) rest)

pending-execute_all :
    (cs : List Command) (u : User)
    → u.status ≡ pending
    → decided_by_other u.id cs ≡ false
    → (execute_all cs u).status ≡ pending
unfolding execute_all
pending-execute_all [] u r p = r
pending-execute_all (c ∷ cs) u r p =
    let (still, rest) = pending-execute c cs u r p in
    pending-execute_all cs (execute c u).0 still (rw (id-execute c u) rest)

-- A user who was not the first stays a plain user until someone else promotes them, and pending
-- until someone else approves or rejects them, whatever else is called.
pub needs_other :
    {u : User} (cs : List Command)
    → Registered false u
    → (promoted_by_other u.id cs ≡ false → (execute_all cs u).role ≡ member)
      × (decided_by_other u.id cs ≡ false → (execute_all cs u).status ≡ pending)
needs_other {u} cs r =
    let start = (Registered-start r).1 refl in
    (member-execute_all cs u start.0, pending-execute_all cs u start.1)
