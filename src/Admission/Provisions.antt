-- ===== src/Admission/Provisions.antt =====
-- An approval that works.
use duragraph.Base.{
  ℕ, ◌≡◌, ◌≢◌, refl, ap, ◌∙◌, Bool, if◌then◌else◌, true, false, ◌||◌, Option, none, some, List, [],
  ◌∷◌, ◌++◌, String, arith,
}
use duragraph.Base.Text.{◌=ₛ◌}
use duragraph.Base.Errors.{DomainError, ok}
use duragraph.User
use duragraph.User.Storage
use duragraph.User.Statuses.{is_approved}
use duragraph.User.Storage.{UserData}
use duragraph.Tenant
use duragraph.Tenant.{Tenant, new_tenant, start_provisioning}
use duragraph.Tenant.Name.{Parsed}
use duragraph.Tenant.Storage.{TenantData, row}
use duragraph.Tenant.Statuses.{to_string, provisioning, pending, can_transition_to}
use duragraph.Admission.{
  World, Context, Answer, done, accepted, saved_tenants, publish_provisioning, provision, made,
  store_user, approve_again, provision_user, approve_loaded, approve_user,
}
use duragraph.Admission.Tenants
use duragraph.Admission.Tenants.{find_tenant_of, get_by_user_id, is_taken}
use duragraph.Admission.Rows.{insert-found}
use duragraph.Admission.Changes.{
  IsUser, IsOther, with_user-found, with_users, stored_change, approves, status_loaded,
}

-- A tenant as it is made, and as it is when it is provisioned.
pub record New (id user : String) (t : Tenant) : Type 0 where
  pub same_id : t.id ≡ id
  pub same_user : t.user_id ≡ user
  pub waits : t.status ≡ pending
  pub unsaved : t.loaded_updated_at ≡ 0

pub new_tenant-New :
    (now : ℕ) (id : String) (parse : String → Parsed) (user : String) {t : Tenant}
    → new_tenant now id parse user ≡ ok t
    → New id user t
unfolding new_tenant Tenant.record_event
new_tenant-New now id parse user {t} h = record {
  same_id = ground arith;
  same_user = ground arith;
  waits = ground arith;
  unsaved = ground arith;
}

can_start : (t : Tenant) → t.status ≡ pending → can_transition_to t.status provisioning ≡ true
unfolding can_transition_to
can_start t h = rw h refl

pub started :
    (now : ℕ) (t : Tenant)
    → t.status ≡ pending
    → let (t', e) = start_provisioning now t in
      (e ≡ none)
      × (t'.id ≡ t.id)
      × (t'.user_id ≡ t.user_id)
      × (t'.db_name ≡ t.db_name)
      × (t'.loaded_updated_at ≡ t.loaded_updated_at)
      × (t'.status ≡ provisioning)
unfolding start_provisioning
started now t h = rw (can_start t h) (refl, refl, refl, refl, refl, refl)

same_taken :
    (t u : Tenant) (ds : List TenantData)
    → u.id ≡ t.id
    → u.user_id ≡ t.user_id
    → u.db_name ≡ t.db_name
    → is_taken u ds ≡ is_taken t ds
unfolding is_taken
same_taken t u [] i o n = refl
same_taken t u (d ∷ ds) i o n = rw i (
    rw o (
      rw n (
        ap (λ b. (d.id =ₛ t.id) || (d.user_id =ₛ t.user_id) || (d.db_name =ₛ t.db_name) || b)
          (same_taken t u ds i o n))))

accepted-none :
    (o : Tenant × Option DomainError) (w : World) (k : Tenant → World × Answer)
    → o.1 ≡ none
    → accepted o w k ≡ k o.0
accepted-none (t, none) w k e = refl
accepted-none (t, some x) w k e = cc

pub no_tenant :
    (user : String) (ds : List TenantData)
    → find_tenant_of user ds ≡ none
    → get_by_user_id user ds ≡ none
unfolding get_by_user_id
no_tenant user ds h = rw (get_by_user_id, h) refl

pub approve_steps :
    (c : Context) (id by : String) (d : UserData) (w : World)
    → IsUser id "pending" d w
    → let r = Storage.reconstruct_from_data d in
      approve_loaded c id by w r
      ≡ accepted
          (User.approve c.now by r)
          w
          (λ u'. store_user c w u' (λ w'. provision_user c id w'))
unfolding Storage.status_of_data is_approved
approve_steps c id by d w h =
    let r = Storage.reconstruct_from_data d in
    ap
      (λ (b : Bool).
        if b
        then approve_again c id (get_by_user_id id w.tenants) w
        else accepted (User.approve c.now by r) w
            (λ u'. store_user c w u' (λ w'. provision_user c id w')))
      (ap is_approved (status_loaded id "pending" d w h))

-- The world with the new tenant and the message about it.
abbrev pub provisioned : Context → Tenant → World → World
provisioned c t w = record w {
  tenants = w.tenants ++ row t ∷ [];
  published = w.published ++ (t.id, c.now) ∷ [];
}

pub provision_new :
    (c : Context) (id : String) (t : Tenant) (w : World)
    → find_tenant_of id w.tenants ≡ none
    → new_tenant c.now c.fresh c.parse id ≡ ok t
    → is_taken t w.tenants ≡ false
    → c.tenant_fault ≡ none
    → c.publish_fault ≡ none
    → let t' = (start_provisioning c.now t).0 in
      (provision_user c id w ≡ (provisioned c t' w, done))
      × (find_tenant_of id (provisioned c t' w).tenants ≡ some (row t'))
      × (t'.id ≡ c.fresh)
      × (t'.status ≡ provisioning)
provision_new c id t w missing made_it free f g =
    let n = new_tenant-New c.now c.fresh c.parse id made_it in
    let (taken, i, o, name, l, status) = started c.now t n.waits in
    let t' = (start_provisioning c.now t).0 in
    let (saved, found) =
      insert-found c.at id t' w.tenants missing (o ∙ n.same_user) (l ∙ n.unsaved)
        (same_taken t t' w.tenants i o name ∙ free) in
    let path =
      ap (λ x. provision c id x w) (no_tenant id w.tenants missing)
      ∙ (ap (λ x. made c x w) made_it
          ∙ (accepted-none (start_provisioning c.now t) w
                (λ u.
                  saved_tenants (Tenants.save c.tenant_fault c.at u w.tenants) w
                    (λ w'. publish_provisioning c u w'))
                taken
              ∙ (ap
                    (λ x.
                      saved_tenants (Tenants.save x c.at t' w.tenants) w
                        (λ w'. publish_provisioning c t' w'))
                    f
                  ∙ (ap (λ x. saved_tenants x w (λ w'. publish_provisioning c t' w')) saved
                      ∙ ap
                          (λ (p : Option String).
                            publish_provisioning (record c { publish_fault = p }) t'
                              (record w { tenants = w.tenants ++ row t' ∷ [] }))
                          g)))) in
    (path, found, i ∙ n.same_id, status)

-- A pending user without a tenant is approved by someone else, and nothing fails; a tenant can be made
-- for the user, whose id, user and database name no tenant has. The approval succeeds: the user is
-- approved, a tenant of the user with the fresh id is stored in provisioning, the other
-- tenants are as they were, and one message tells of the tenant.
pub approve_user_provisions :
    (c : Context) (id by : String) (d : UserData) (t : Tenant) (w : World)
    → IsUser id "pending" d w
    → find_tenant_of id w.tenants ≡ none
    → IsOther id by
    → new_tenant c.now c.fresh c.parse id ≡ ok t
    → is_taken t w.tenants ≡ false
    → c.user_fault ≡ none
    → c.tenant_fault ≡ none
    → c.publish_fault ≡ none
    → c.at ≢ 0
    → let (w', answer) = approve_user c id by w in
      (answer ≡ done)
      × ((d' : UserData) × IsUser id "approved" d' w')
      × ((r : TenantData) × (w'.tenants ≡ w.tenants ++ r ∷ [])
          × (find_tenant_of id w'.tenants ≡ some r)
          × (r.id ≡ c.fresh)
          × (r.status ≡ "provisioning"))
      × (w'.published ≡ w.published ++ (c.fresh, c.now) ∷ [])
unfolding approve_user User.Statuses.to_string to_string
approve_user_provisions c id by d t w h missing o made_it free u f g z =
    let r = Storage.reconstruct_from_data d in
    let m = approves c.now id by d w h o in
    let v = with_users c (User.approve c.now by r).0 w in
    let (path, found) =
      stored_change c id "pending" d User.Statuses.approved (User.approve c.now by r) w
        (λ (y : World). provision_user c id y) h m u z in
    let (end, tenant, fresh, status) = provision_new c id t v missing made_it free f g in
    let t' = (start_provisioning c.now t).0 in
    rw
      (with_user-found id by "approved_by_user_id" w (approve_loaded c id by w) h.named o.given
          h.found
        ∙ (approve_steps c id by d w h ∙ (path ∙ end)))
      (
        refl,
        (
          found.0,
          record {
            found = found.1.found;
            status_is = found.1.status_is;
            stamped = found.1.stamped;
            named = found.1.named;
          },
        ),
        (row t', refl, tenant, fresh, ap to_string status),
        ap (λ j. w.published ++ (j, c.now) ∷ []) fresh,
      )
