-- ===== src/Admission/Changes.antt =====
-- A user that a command changes and stores.
use duragraph.Base.{
  ℕ, ◌≡◌, ◌≢◌, refl, sym, ap, ◌∙◌, false, Option, none, some, List, [], ◌∷◌, String, arith,
}
use mathlib.Core.Path.{subst}
use duragraph.Base.Text.{◌=ₛ◌, =ₛ_iff}
use duragraph.Base.Errors.{DomainError}
use duragraph.User
use duragraph.User.{User, suspend, approve}
use duragraph.User.Storage.{UserData, reconstruct_from_data, status_of_data}
use duragraph.User.Statuses.{
  Status, pending, approved, suspended, to_string, is_approved, is_suspended,
}
use duragraph.Admission.{World, Context, Answer, accepted, saved_users, store_user, with_user}
use duragraph.Admission.Users
use duragraph.Admission.Users.{find_user, get_by_id, update_rows, updated_user}
use duragraph.Admission.Rows.{save-loaded}

-- The row of a user with this status, as a command finds it.
pub record IsUser (id status : String) (d : UserData) (w : World) : Type 0 where
  pub found : find_user id w.users ≡ some d
  pub status_is : d.status ≡ status
  pub stamped : d.updated_at ≢ 0
  pub named : (id =ₛ "") ≡ false

-- The actor is named, and is someone else.
pub record IsOther (id by : String) : Type 0 where
  pub given : (by =ₛ "") ≡ false
  pub other : (by =ₛ id) ≡ false

found_id : (id : String) (ds : List UserData) {d : UserData} → find_user id ds ≡ some d → d.id ≡ id
unfolding find_user
found_id id [] h = cc
found_id id (x ∷ ds) {d} h = ground (arith, found_id id ds {d = d}, =ₛ_iff x.id id)

pub with_user-found :
    (id by field : String) (w : World) (k : User → World × Answer) {d : UserData}
    → (id =ₛ "") ≡ false
    → (by =ₛ "") ≡ false
    → find_user id w.users ≡ some d
    → with_user id by field w k ≡ k (reconstruct_from_data d)
unfolding get_by_id
with_user-found id by field w k {d} n b h = rw n (rw b (rw (get_by_id, h) refl))

-- A change of the user that the aggregate accepts, and that leaves the id and the token alone.
pub record Changed (d : UserData) (status : Status) (o : User × Option DomainError) : Type 0 where
  pub taken : o.1 ≡ none
  pub same_id : o.0.id ≡ d.id
  pub same_token : o.0.loaded_updated_at ≡ d.updated_at
  pub status_now : o.0.status ≡ status

accepted-none :
    (o : User × Option DomainError) (w : World) (k : User → World × Answer)
    → o.1 ≡ none
    → accepted o w k ≡ k o.0
accepted-none (u, none) w k e = refl
accepted-none (u, some x) w k e = cc

-- The world with the changed user.
abbrev pub with_users : Context → User → World → World
with_users c u w = record w { users = update_rows c.at u w.users }

status-updated :
    (at : ℕ) (u : User) (d : UserData) → (updated_user at u d).status ≡ to_string u.status
unfolding updated_user
status-updated at u d = refl

stamp-updated : (at : ℕ) (u : User) (d : UserData) → (updated_user at u d).updated_at ≡ at
unfolding updated_user
stamp-updated at u d = refl

-- The change is stored, and the row has the new status.
pub stored_change :
    (c : Context) (id status : String) (d : UserData) (new : Status) (o : User × Option DomainError)
    (w : World) (k : World → World × Answer)
    → IsUser id status d w
    → Changed d new o
    → c.user_fault ≡ none
    → c.at ≢ 0
    → (accepted o w (λ u. store_user c w u k) ≡ k (with_users c o.0 w))
      × ((d' : UserData) × IsUser id (to_string new) d' (with_users c o.0 w))
stored_change c id status d new o w k h m f z =
    let saved =
      save-loaded c.at id o.0 w.users h.found (m.same_id ∙ found_id id w.users h.found) m.same_token
        h.stamped in
    (
      accepted-none o w (λ u. store_user c w u k) m.taken
          ∙ (ap (λ x. saved_users (Users.save x c.at o.0 w.users) w k) f
              ∙ ap (λ x. saved_users x w k) saved.0),
      (
        updated_user c.at o.0 d,
        record {
          found = saved.1;
          status_is = status-updated c.at o.0 d ∙ ap to_string m.status_now;
          stamped = λ e. z (sym (stamp-updated c.at o.0 d) ∙ e);
          named = h.named;
        },
      ),
    )

pub suspends :
    (now : ℕ) (id by reason : String) (d : UserData) (w : World)
    → IsUser id "approved" d w
    → IsOther id by
    → Changed d suspended (suspend now by reason (reconstruct_from_data d))
unfolding suspend User.guarded reconstruct_from_data status_of_data is_approved
suspends now id by reason d w h o =
    let other = subst (λ j. (by =ₛ j) ≡ false) (sym (found_id id w.users h.found)) o.other in
    rw o.given (
      rw other (
        rw h.status_is
          (record { taken = refl; same_id = refl; same_token = refl; status_now = refl })))

pub approves :
    (now : ℕ) (id by : String) (d : UserData) (w : World)
    → IsUser id "pending" d w
    → IsOther id by
    → Changed d approved (approve now by (reconstruct_from_data d))
unfolding approve User.guarded reconstruct_from_data status_of_data User.Statuses.is_pending
approves now id by d w h o =
    let other = subst (λ j. (by =ₛ j) ≡ false) (sym (found_id id w.users h.found)) o.other in
    rw o.given (
      rw other (
        rw h.status_is
          (record { taken = refl; same_id = refl; same_token = refl; status_now = refl })))

pub status_loaded :
    (id status : String) (d : UserData) (w : World)
    → IsUser id status d w
    → (reconstruct_from_data d).status ≡ status_of_data status
unfolding reconstruct_from_data
status_loaded id status d w h = ap status_of_data h.status_is
