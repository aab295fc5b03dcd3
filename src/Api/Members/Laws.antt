-- ===== src/Api/Members/Laws.antt =====
-- What the members' routes keep: nobody is a member twice, and nobody removes themselves.
use ai_cctv_platform.Common.{
  ◌≡◌, refl, ◌≤◌, ◌&&◌, not, String, true, false, Option, List, [], ◌∷◌, ◌==◌, eq_iff, is_some,
  first, length, arith, Bool-cases, inl, inr, ◌⊎◌, In, In-filter,
}
use ai_cctv_platform.Access.Rbac.{OrgRole}
use ai_cctv_platform.Access.Directory.{MemberStatus}
use ai_cctv_platform.Tenancy.World.{World, Runtime, Clock, Member}
use ai_cctv_platform.Tenancy.Rls.{
  TenantContext, ok, org_visible, select, delete, new_id, insert_member, update_members,
  delete_members, insert_audit_log,
}
use ai_cctv_platform.Tenancy.Rls.Queries.{
  length-select_concat, length-select-update, length-select-delete,
}
use ai_cctv_platform.Tenancy.Outcomes.{
  Ensures, Ensures-post, Ensures-bind, Ensures-seq, Ensures-if, Ensures-insert, Ensures-pure,
  Ensures-throw, Ensures-read, Ensures-step,
}
use ai_cctv_platform.Services.Notification.{audit}
use ai_cctv_platform.Api.Rows.{required_found, required-Ensures, require_member}
use ai_cctv_platform.Api.Sites.{Caller}
use ai_cctv_platform.Api.Members.{
  select_members, new_member, add_member, patch_member, update_member, remove_member, MemberRequest,
  add, change, remove, serve_member,
}

-- No user is twice a member of the organization that the handle sees.
pub record MembersAreUnique (db : TenantContext) (w : World) : Type 0 where
  pub once :
      (user_id : String)
      → length (select (λ (m : Member). m.organization_id) db (λ m. m.user_id == user_id) w.members)
        ≤ 1

module _ (rt : Runtime) (clock : Clock) (db : TenantContext) (caller : Caller) where
  audited-Unique :
      (user_id : Option String) (action resource : String) (id : Option String) (w : World)
      → MembersAreUnique db w
      → Ensures
          (audit db caller.organization_id user_id action resource id caller.ip)
          w
          (λ _ w'. MembersAreUnique db w')
  unfolding audit insert_audit_log
  audited-Unique user_id action resource id w h = Ensures-insert db _ _ w (record { once = h.once })

  first-length : {A : Type 0} (xs : List A) → is_some (first xs) ≡ false → length xs ≡ 0
  first-length [] h = refl
  first-length (x ∷ xs) h = ground (arith, h)

  insert-Unique :
      (r : Member) (w : World)
      → MembersAreUnique db w
      → is_some (first (select_members rt clock db caller r.user_id w)) ≡ false
      → Ensures (insert_member db r) w (λ _ w'. MembersAreUnique db w')
  unfolding insert_member select_members
  insert-Unique r w h free = Ensures-insert db _ _ w (record {
    once = λ u. ground (
      arith,
      h.once u,
      first-length _ free,
      eq_iff r.user_id u,
      length-select_concat (λ (m : Member). m.organization_id) db (λ m. m.user_id == u) w.members r,
    );
  })

  add_member-Unique :
      (user_id : String) (role : OrgRole) (w : World)
      → MembersAreUnique db w
      → Ensures (add_member rt clock db caller user_id role) w (λ _ w'. MembersAreUnique db w')
  unfolding add_member new_member new_id
  add_member-Unique user_id role w h = Ensures-read _ _ (
      Ensures-seq
        {P = λ x.
          MembersAreUnique db x
          × (is_some (first (select_members rt clock db caller user_id x)) ≡ false)}
        (Ensures-if (is_some (first (select_members rt clock db caller user_id w)))
          (λ _. Ensures-throw _) (λ n. Ensures-pure tt (h, n)))
        (λ x k.
          Ensures-bind
            {P = λ _ y.
              MembersAreUnique db y
              × (is_some (first (select_members rt clock db caller user_id y)) ≡ false)}
            (Ensures-step _ _ refl (record { once = k.0.once }, k.1))
            (λ id y k. Ensures-seq {P = MembersAreUnique db} (insert-Unique _ y k.0 k.1) (λ z h.
              Ensures-seq {P = MembersAreUnique db} (audited-Unique _ _ _ _ z h)
                (λ z h. Ensures-pure _ h)))))

  update_member-Unique :
      (id : String) (role : Option OrgRole) (status : Option MemberStatus) (w : World)
      → MembersAreUnique db w
      → Ensures (update_member rt clock db caller id role status) w (λ _ w'. MembersAreUnique db w')
  unfolding update_member patch_member update_members require_member
  update_member-Unique id role status w h =
      Ensures-bind {P = λ _. MembersAreUnique db}
        (required-Ensures _ _ "organization_members" _ db id h)
        (λ m x h.
          Ensures-seq {P = MembersAreUnique db}
            (Ensures-step _ _ refl (record {
              once = λ u. omega (
                arith,
                h.once u,
                length-select-update (λ (r : Member). r.organization_id) db (λ r. r.user_id == u)
                    (λ r. r.id == id) (patch_member rt clock db caller role status) (λ r. refl)
                    (λ r. refl) x.members,
              );
            }))
            (λ y h. Ensures-read _ _ (
              Ensures-seq {P = MembersAreUnique db} (audited-Unique _ _ _ _ y h)
                (λ z h. Ensures-pure _ h))))

  remove_member-Unique :
      (id : String) (w : World)
      → MembersAreUnique db w
      → Ensures (remove_member rt clock db caller id) w (λ _ w'. MembersAreUnique db w')
  unfolding remove_member delete_members require_member
  remove_member-Unique id w h =
      Ensures-bind {P = λ _. MembersAreUnique db}
        (required-Ensures _ _ "organization_members" _ db id h)
        (λ m x h.
          Ensures-if (m.user_id == caller.user_id) (λ _. Ensures-throw _)
            (λ _.
              Ensures-seq {P = MembersAreUnique db}
                (Ensures-step _ _ refl (record {
                  once = λ u. omega (
                    arith,
                    h.once u,
                    length-select-delete (λ (r : Member). r.organization_id) db
                        (λ r. r.user_id == u) (λ r. r.id == id) x.members,
                  );
                }))
                (λ y h. audited-Unique _ _ _ _ y h)))

  -- Where no user is twice a member of the organization before a route of the members, none is
  -- after it, if it returns.
  pub serve_member_unique :
      (r : MemberRequest) (w w' : World)
      → MembersAreUnique db w
      → serve_member rt clock db caller r w ≡ ok tt w'
      → MembersAreUnique db w'
  unfolding serve_member
  serve_member_unique (add user_id role) w w' h e =
      Ensures-post {Q = λ _. MembersAreUnique db}
        (Ensures-bind (add_member-Unique user_id role w h) (λ m x k. Ensures-pure tt k)) e
  serve_member_unique (change id role status) w w' h e =
      Ensures-post {Q = λ _. MembersAreUnique db}
        (Ensures-bind (update_member-Unique id role status w h) (λ m x k. Ensures-pure tt k)) e
  serve_member_unique (remove id) w w' h e = Ensures-post (remove_member-Unique id w h) e

  In-delete :
      (id : String) (r m : Member) (rows : List Member)
      → In m rows
      → r.id ≡ id
      → (m.id ≡ r.id → m.user_id ≡ r.user_id)
      → m.user_id ≡ caller.user_id
      → (r.user_id == caller.user_id) ≡ false
      → In m (delete (λ (r : Member). r.organization_id) db (λ r. r.id == id) rows)
  unfolding delete
  In-delete id r m rows stored named unique own other =
      In-filter _ rows stored (spared (Bool-cases (m.id == id)))
    where
      spared :
          ((m.id == id) ≡ true) ⊎ ((m.id == id) ≡ false)
          → not (org_visible db m.organization_id && m.id == id) ≡ true
      spared (inr n) = ground (arith, n)
      spared (inl y) =
          let same = unique (ground (arith, eq_iff m.id id, y, named)) in
          ground (arith, same, own, other, eq_iff r.user_id caller.user_id)

  -- Where the ids of the table belong to one user each, whoever removes a member keeps every
  -- membership of their own.
  pub remove_member_self :
      (id : String) (w w' : World)
      → ((m n : Member) → In m w.members → In n w.members → m.id ≡ n.id → m.user_id ≡ n.user_id)
      → remove_member rt clock db caller id w ≡ ok tt w'
      → (m : Member) → In m w.members
      → m.user_id ≡ caller.user_id
      → In m w'.members
  unfolding remove_member delete_members require_member audit insert_audit_log
  remove_member_self id w w' unique e m stored own =
      Ensures-post {Q = λ _ x. In m x.members} removed e
    where
      deleted :
          (x : World) (r : Member)
          → x ≡ w
          → In r w.members
          → r.id ≡ id
          → (r.user_id == caller.user_id) ≡ false
          → In m (delete (λ (r : Member). r.organization_id) db (λ r. r.id == id) x.members)
      deleted x r same found named other =
          rw (same) (In-delete id r m w.members stored named (unique m r stored found) own other)

      removed : Ensures (remove_member rt clock db caller id) w (λ _ x. In m x.members)
      removed = Ensures-bind (required_found _ _ "organization_members" _ db id w) (λ r x f.
          Ensures-if (r.user_id == caller.user_id) (λ _. Ensures-throw _)
            (λ n.
              Ensures-seq {P = λ x. In m x.members}
                (Ensures-step _ _ refl (deleted x r f.0 f.1 f.2 n))
                (λ y h. Ensures-insert db _ _ y h)))
