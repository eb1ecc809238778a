-- ===== src/Grants/Quiet.antt =====
-- Changes of a role that leave the cache alone, and the rights of those who do not have the role.
use mathlib.Core.Path.{fun_ext}
use request_system.Common.{
  ℕ, false, not, ◌&&◌, Option, none, some, List, [], ◌∷◌, ◌++◌, map, find, select, any, ◌==◌, ◌≡◌,
  refl, ◌∙◌, ap, arith, Bool-cases, inl, inr,
}
use request_system.Errors.{Error, Result, ok, err}
use request_system.Grants.{
  Role, Tables, State, Call, World, M, continue, ◌>>=◌, answer, call, call_result, on_db, begin_tx,
  commit_tx, transaction, opened, closed, committed, mem, has_link, role_grants, names_where,
  names_of, user_ids_of_role,
}
use request_system.Grants.Roles.{
  CreateRoleDto, status_or_active, new_role, link_if_any, UpdateRoleDto, unlink_permissions,
  link_permissions, without_role, find_role_by_id, relink, write_role, rows_affected, delete_row_of,
}
use request_system.Grants.Runs.{has_link-append, has_link-others, has_link-given}

module _ (role : ℕ) where
  abbrev pub Outside : ℕ → Tables → Type 0
  Outside v db = mem v (user_ids_of_role db role) ≡ false

  abbrev pub Quiet : State → State → Type 0
  Quiet s t =
      (t.cache ≡ s.cache)
      × ((v : ℕ) → Outside v s.db → Outside v t.db × (names_of t.db v ≡ names_of s.db v))

  Quiet-refl : (s : State) → Quiet s s
  Quiet-refl s = (refl, λ v h. (h, refl))

  Quiet-trans : (s t r : State) → Quiet s t → Quiet t r → Quiet s r
  Quiet-trans s t r (c, f) (c', f') =
      (c' ∙ c, λ v h. let (h', e) = f v h in let (h'', e') = f' v h' in (h'', e' ∙ e))

  pub record IsQuiet {A : Type 0} (m : M A) : Type 0 where
    pub at : (s : State) → Quiet s (m s).1

  answer-IsQuiet : {A : Type 0} (r : Result A) → IsQuiet (answer r)
  answer-IsQuiet r = record { at = λ s. Quiet-refl s }

  >>=-IsQuiet :
      {A B : Type 0} (m : M A) (k : A → M B)
      → IsQuiet m
      → ((a : A) → IsQuiet (k a))
      → IsQuiet (m >>= k)
  unfolding ◌>>=◌
  >>=-IsQuiet {A} {B} m k p q = record { at = λ s. after s (m s) (p.at s) }
    where
      after : (s : State) (r : Result A × State) → Quiet s r.1 → Quiet s (continue r.0 k r.1).1
      after s (ok a, t) h = Quiet-trans s t _ h ((q a).at t)
      after s (err e, t) h = h

  call-IsQuiet :
      (w : World) (c : Call) (f : State → State)
      → ((s : State) → Quiet s (f s))
      → IsQuiet (call w c f)
  unfolding call
  call-IsQuiet w c f q = record { at = λ s. after (w.fault c) s }
    where
      after : (fault : Option Error) (s : State) → Quiet s (call_result fault f s).1
      after none s = q s
      after (some e) s = Quiet-refl s

  transaction-IsQuiet :
      {A : Type 0} (w : World) (wrap : Error → Error) (body : M A)
      → IsQuiet body
      → IsQuiet (transaction w wrap body)
  unfolding transaction
  transaction-IsQuiet {A} w wrap body q = record { at = λ s. begun (w.fault begin_tx) s }
    where
      undone : (s t : State) → Quiet s t → Quiet s (record t { db = s.db })
      undone s t h = (h.0, λ v o. (o, refl))

      done :
          (fault : Option Error) (a : A) (s t : State)
          → Quiet s t
          → Quiet s (committed s.db a fault t).1
      done none a s t h = h
      done (some e) a s t h = undone s t h

      ended :
          (r : Result A × State) (s : State) → Quiet s r.1 → Quiet s (closed w wrap s.db r.0 r.1).1
      ended (ok a, t) s h = done (w.fault commit_tx) a s t h
      ended (err e, t) s h = undone s t h

      begun : (fault : Option Error) (s : State) → Quiet s (opened w wrap fault body s).1
      begun none s = ended (body s) s (q.at s)
      begun (some e) s = Quiet-refl s

  same_names :
      (db : Tables) (v : ℕ) (rp : List (ℕ × ℕ))
      → ((id : ℕ) → role_grants (record db { role_permissions = rp }) v id ≡ role_grants db v id)
      → names_of (record db { role_permissions = rp }) v ≡ names_of db v
  unfolding names_of
  same_names db v rp h = ap (names_where db.permissions) (fun_ext λ id. ground (arith, h id))

  -- The permissions of the role do not reach who does not have it.
  outside-role_grants :
      (v id : ℕ) (rp rp' ur : List (ℕ × ℕ))
      → mem v (map (λ (l : ℕ × ℕ). l.0) (select (λ l. l.1 == role) ur)) ≡ false
      → ((r : ℕ) → (r == role) ≡ false → has_link r id rp' ≡ has_link r id rp)
      → any (λ l. l.0 == v && has_link l.1 id rp') ur ≡ any (λ l. l.0 == v && has_link l.1 id rp) ur
  outside-role_grants v id rp rp' [] o same = refl
  outside-role_grants v id rp rp' (l ∷ ur) o same =
      let rest = map (λ (x : ℕ × ℕ). x.0) (select (λ x. x.1 == role) ur) in
      elim (Bool-cases (l.1 == role)) [
        | inl e ↦
            let o' : mem v (l.0 ∷ rest) ≡ false = rw e at o in
            let ih = outside-role_grants v id rp rp' ur (ground arith) same in ground arith
        | inr e ↦
            let o' : mem v rest ≡ false = rw e at o in
            let ih = outside-role_grants v id rp rp' ur o' same in ground (arith, same l.1 e)
      ]

  over_links :
      (s : State) (rp : List (ℕ × ℕ))
      → ((r id : ℕ) → (r == role) ≡ false → has_link r id rp ≡ has_link r id s.db.role_permissions)
      → Quiet s (on_db (λ db. record db { role_permissions = rp }) s)
  over_links s rp same = (
    refl,
    λ v o. (
      o,
      same_names s.db v rp
          λ id. outside-role_grants v id s.db.role_permissions rp s.db.user_roles o λ r. same r id,
    ),
  )

  unlink-Quiet : (s : State) → Quiet s (on_db (unlink_permissions role) s)
  unlink-Quiet s =
      over_links s (select (λ l. not (l.0 == role)) s.db.role_permissions)
        λ r id e. ground (arith, has_link-others r id role s.db.role_permissions)

  link-Quiet : (ids : List ℕ) (s : State) → Quiet s (on_db (link_permissions role ids) s)
  link-Quiet ids s = over_links s (s.db.role_permissions ++ map (λ id. (role, id)) ids) λ r id e.
      ground (
        arith,
        has_link-append r id s.db.role_permissions (map (λ (i : ℕ). (role, i)) ids),
        has_link-given r id role ids,
      )

  module _ (w : World) where
    relink-IsQuiet : (ids : Option (List ℕ)) → IsQuiet (relink w role ids)
    relink-IsQuiet none = answer-IsQuiet (ok tt)
    relink-IsQuiet (some []) =
        >>=-IsQuiet _ _ (call-IsQuiet w _ _ unlink-Quiet) λ u. answer-IsQuiet (ok tt)
    relink-IsQuiet (some (id ∷ ids)) =
        >>=-IsQuiet _ _ (call-IsQuiet w _ _ unlink-Quiet)
          λ u. call-IsQuiet w _ _ (link-Quiet (id ∷ ids))

    find_role_by_id-IsQuiet : (id : ℕ) → IsQuiet (find_role_by_id w id)
    find_role_by_id-IsQuiet id =
        >>=-IsQuiet _ _ (call-IsQuiet w _ _ Quiet-refl) λ u. record { at = Quiet-refl }

    pub write_role-IsQuiet : (dto : UpdateRoleDto) → IsQuiet (write_role w role dto)
    unfolding names_of
    write_role-IsQuiet dto =
        transaction-IsQuiet w (λ e. e) _
          (>>=-IsQuiet _ _ (find_role_by_id-IsQuiet role) λ r.
            >>=-IsQuiet _ _ (call-IsQuiet w _ _ λ s. (refl, λ v o. (o, refl)))
              λ u. relink-IsQuiet dto.permission_ids)

    link_if_any-IsQuiet : (ids : List ℕ) → IsQuiet (link_if_any w role ids)
    link_if_any-IsQuiet [] = answer-IsQuiet (ok tt)
    link_if_any-IsQuiet (id ∷ ids) = call-IsQuiet w _ _ (link-Quiet (id ∷ ids))

    status_or_active-IsQuiet : (status : Option ℕ) → IsQuiet (status_or_active w status)
    status_or_active-IsQuiet (some id) = answer-IsQuiet (ok id)
    status_or_active-IsQuiet none =
        >>=-IsQuiet _ _ (call-IsQuiet w _ _ Quiet-refl) λ u. answer-IsQuiet (ok w.active_status)

    pub new_role-IsQuiet : (dto : CreateRoleDto) → IsQuiet (new_role w role dto)
    unfolding names_of
    new_role-IsQuiet dto =
        transaction-IsQuiet w (λ e. e) _
          (>>=-IsQuiet _ _ (status_or_active-IsQuiet dto.status_id) λ status.
            >>=-IsQuiet _ _ (call-IsQuiet w _ _ λ s. (refl, λ v o. (o, refl)))
              λ u. link_if_any-IsQuiet dto.permission_ids)

    -- Without the role its holders are gone, and nobody else held anything of it.
    kept_links :
        (v id : ℕ) (rp ur : List (ℕ × ℕ))
        → mem v (map (λ (l : ℕ × ℕ). l.0) (select (λ l. l.1 == role) ur)) ≡ false
        → any (λ l. l.0 == v && has_link l.1 id rp) (select (λ l. not (l.1 == role)) ur)
          ≡ any (λ l. l.0 == v && has_link l.1 id rp) ur
    kept_links v id rp [] o = refl
    kept_links v id rp (l ∷ ur) o =
        let rest = map (λ (x : ℕ × ℕ). x.0) (select (λ x. x.1 == role) ur) in
        elim (Bool-cases (l.1 == role)) [
          | inl e ↦
              let o' : mem v (l.0 ∷ rest) ≡ false = rw e at o in
              let ih = kept_links v id rp ur (ground arith) in ground arith
          | inr e ↦
              let o' : mem v rest ≡ false = rw e at o in
              let ih = kept_links v id rp ur o' in ground arith
        ]

    no_links :
        (v : ℕ) (ur : List (ℕ × ℕ))
        → mem v (
            map
              (λ (l : ℕ × ℕ). l.0)
              (select (λ l. l.1 == role) (select (λ l. not (l.1 == role)) ur)))
          ≡ false
    no_links v [] = refl
    no_links v (l ∷ ur) = ground (arith, no_links v ur)

    without_role-Quiet : (s : State) → Quiet s (on_db (without_role role) s)
    unfolding names_of
    without_role-Quiet s = (
      refl,
      λ v o. (
        no_links v s.db.user_roles,
        ap (names_where s.db.permissions) (
            fun_ext λ id.
              let e =
                outside-role_grants v id s.db.role_permissions
                  (select (λ l. not (l.0 == role)) s.db.role_permissions)
                  (select (λ l. not (l.1 == role)) s.db.user_roles) (no_links v s.db.user_roles)
                  (λ r d. ground (arith, has_link-others r id role s.db.role_permissions)) in
              let e' = kept_links v id s.db.role_permissions s.db.user_roles o in ground arith),
      ),
    )

    rows_affected-Quiet :
        (found : Option Role) (s : State) → Quiet s (rows_affected w role found s).1
    rows_affected-Quiet none s = Quiet-refl s
    rows_affected-Quiet (some r) s = without_role-Quiet s

    pub delete_row_of-IsQuiet : IsQuiet (delete_row_of w role)
    delete_row_of-IsQuiet = >>=-IsQuiet _ _ (call-IsQuiet w _ _ Quiet-refl) λ u. record {
      at = λ s. rows_affected-Quiet (find (λ (r : Role). r.id == role) s.db.roles) s;
    }
