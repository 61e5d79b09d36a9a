-- ===== src/Admins/Tokens.antt =====
-- src/server/monitornio.c: whom `monitor_is_admin` accepts, before and after a change of the table.

use socks_v5_proxy.Users.Registration.{close_gap_lem, length-close_gap}
use socks_v5_proxy.Prelude.{
  leb, ◌==◌, Bool-cases, Option-cases, length, set, take, drop, replicate, length-set, length-take,
  length-drop, take-length-append, take-set_end, c_string, strncpy, take-all, bytes_eq, pos, ℕ,
  zero, suc, ◌+◌, ◌-◌, ◌≤◌, ◌<◌, ◌≡◌, refl, sym, ap, ◌∙◌, ◌≢◌, ◌⊎◌, inl, inr, ◌||◌, Option, some,
  List, [], ◌∷◌, ◌++◌, arith,
}
use socks_v5_proxy.Admins.{
  max_admins, default_admin_uname, Admin, AdminTable, active_admins, admin_name_of, admin_index_of,
  admin_entry, monitor_register_admin, monitor_unregister_admin, is_admin_loop, monitor_is_admin,
}

-- What holds of the table between two calls.
pub record IsSized (t : AdminTable) : Type 0 where
  pub table : length t.admins ≡ max_admins
  pub count : t.registered_admins ≤ max_admins

is_admin_loop-append :
    (token : List ℕ) (xs ys : List Admin)
    → is_admin_loop token (xs ++ ys) ≡ (is_admin_loop token xs || is_admin_loop token ys)
unfolding is_admin_loop
is_admin_loop-append token [] ys = refl
is_admin_loop-append token (a ∷ xs) ys = ground (arith, is_admin_loop-append token xs ys)

-- The array of 17 bytes holds the whole token.
take-strncpy : (token : List ℕ) → length token ≡ 16 → take 16 (strncpy 17 token) ≡ token
unfolding strncpy
take-strncpy token h =
    ap (λ xs. take 16 (xs ++ replicate (17 - length token) 0)) (take-all 17 token (omega arith))
    ∙ ap (λ n. take n (token ++ replicate (17 - length token) 0)) (sym h)
    ∙ take-length-append token (replicate (17 - length token) 0)

same_token-admin_entry :
    (other : List ℕ) (n : ℕ) (uname token : List ℕ)
    → length token ≡ 16
    → is_admin_loop other (admin_entry n uname token ∷ [])
      ≡ bytes_eq (c_string (take 16 other)) (c_string token)
unfolding is_admin_loop admin_entry
same_token-admin_entry other n uname token h = rw (take-strncpy token h) (ground arith)

-- Where registration returns 0, the table has one entry more, and the tokens that are accepted are
-- those that were and the new one, up to its first 0; where it does not, the table is left as it was.
monitor_register_admin-monitor_is_admin :
    (uname token other : List ℕ) (t : AdminTable)
    → IsSized t
    → let (code, t') = monitor_register_admin uname token t in
      IsSized t'
      × (((code ≡ pos 0)
            × (monitor_is_admin other t' ≡ (
                monitor_is_admin other t || bytes_eq (c_string (take 16 other)) (c_string token))))
          ⊎ ((code ≢ pos 0) × (t' ≡ t)))
unfolding monitor_register_admin monitor_is_admin is_admin_loop
monitor_register_admin-monitor_is_admin uname token other t s =
    elim (Bool-cases (leb max_admins t.registered_admins)) [
      | inl full ↦ rw full (s, inr (λ e. ground arith, refl))
      | inr free ↦ elim (Bool-cases (length token == 16)) [
        | inr bad ↦ rw (free, bad) (s, inr (λ e. ground arith, refl))
        | inl good ↦ elim (Option-cases (admin_index_of uname (active_admins t) 0)) [
          | inr (i, f) ↦ rw (free, good, f) (s, inr (λ e. ground arith, refl))
          | inl f ↦
              let entry = admin_entry t.registered_admins uname token in
              let n = t.registered_admins in
              let next : n + 1 ≡ suc n = omega arith in
              let grown : take (n + 1) (set t.admins n entry) ≡ active_admins t ++ entry ∷ [] =
                ap (λ k. take k (set t.admins n entry)) next
                ∙ take-set_end n t.admins entry (let bound = s.count in ground arith) in
              rw (free, good, f)
                (
                  record { table = length-set t.admins n entry ∙ s.table; count = ground arith },
                  inl (
                    refl,
                    ap (is_admin_loop other) grown
                        ∙ is_admin_loop-append other (active_admins t) (entry ∷ [])
                        ∙ ap (λ b. is_admin_loop other (active_admins t) || b)
                            (same_token-admin_entry other n uname token (ground arith)),
                  ),
                )
        ]
      ]
    ]

admin_index_of-bounds :
    (name : List ℕ) (xs : List Admin) (i : ℕ) {k : ℕ}
    → admin_index_of name xs i ≡ some k
    → (i ≤ k) × (k < i + length xs)
unfolding admin_index_of
admin_index_of-bounds name [] i h = cc
admin_index_of-bounds name (a ∷ xs) i {k} h = elim (Bool-cases (bytes_eq name (admin_name_of a))) [
  | inl e ↦
      let same : ◌≡◌ {A = Option ℕ} (some i) (some k) = rw (e, admin_index_of) at h in ground arith
  | inr e ↦
      let (l, u) = admin_index_of-bounds name xs (suc i) (rw (e, admin_index_of) at h) in
      (omega arith, omega arith)
]

take-one-front :
    {A : Type 0} (k : ℕ) (xs ys : List A)
    → 0 < k
    → k ≤ length xs
    → take 1 (take k xs ++ ys) ≡ take 1 xs
take-one-front zero xs ys l h = absurd (omega arith)
take-one-front (suc k) [] ys l h = absurd (omega arith)
take-one-front (suc k) (x ∷ xs) ys l h = refl

-- Unregistration never removes or changes the first entry, whatever name is given; it returns 0 where
-- one entry is gone, and otherwise leaves the table as it was.
monitor_unregister_admin-first :
    (uname : List ℕ) (t : AdminTable)
    → IsSized t
    → let (code, t') = monitor_unregister_admin uname t in
      IsSized t'
      × (take 1 (active_admins t') ≡ take 1 (active_admins t))
      × (((code ≡ pos 0) × (t'.registered_admins + 1 ≡ t.registered_admins))
          ⊎ ((code ≢ pos 0) × (t' ≡ t)))
unfolding monitor_unregister_admin
monitor_unregister_admin-first uname t s = elim (Bool-cases (bytes_eq default_admin_uname uname)) [
  | inl root ↦ rw root (s, refl, inr (λ e. ground arith, refl))
  | inr other ↦ elim (Option-cases (admin_index_of uname (drop 1 (active_admins t)) 1)) [
    | inl f ↦ rw (other, f) (s, refl, inr (λ e. ground arith, refl))
    | inr (i, f) ↦
        let n = t.registered_admins in
        let bound = s.count in
        let size = s.table in
        let (low, high) = admin_index_of-bounds uname (drop 1 (active_admins t)) 1 f in
        let inside : i < n =
          omega (arith, length-drop {0} 1 (active_admins t), length-take {0} n t.admins) in
        rw (other, f)
          (
            record {
              table = length-close_gap t.admins i n inside (omega arith) ∙ s.table;
              count = omega arith;
            },
            ap (take 1) (close_gap_lem t.admins i n inside (omega arith))
                ∙ take-one-front i (active_admins t) (drop (suc i) (active_admins t)) (omega arith)
                    (omega (arith, length-take {0} n t.admins)),
            inl (refl, omega arith),
          )
  ]
]
