-- ===== src/Users/Registration.antt =====
-- src/server/socks5nio.c: `socksv5_register_user` and `socksv5_unregister_user`, as operations on the
-- list of accounts.
use socks_v5_proxy.Prelude.{
  ltb, leb, if◌then◌else◌, tests, Bool-cases, length, set, take, drop, length-append, length-set,
  length-take, length-drop, take-length-append, take-set_end, take-take, drop-take, All, All-append,
  pos, negsuc, ℕ, suc, ◌+◌, ◌-◌, ◌≤◌, ◌<◌, ◌≡◌, refl, sym, ap, ap₂, subst, ◌∙◌, ◌⊎◌, inl, inr, true,
  false, some, List, [], ◌∷◌, ◌++◌, append-nil, append_assoc, arith,
}
use socks_v5_proxy.Users.{
  max_users, User, Registry, active, index_of, user_entry, socksv5_register_user, close_gap,
  socksv5_unregister_user,
}
use socks_v5_proxy.Users.Accounts.{
  account_of, accounts_of, accounts, has_name, remove_name, IsShort, IsTerminated, Distinct,
  IsSound, account-user_entry, index_of-has_name, Distinct-append, Distinct-remove_name, All-take,
  All-drop, IsTerminated-user_entry,
}

accounts_of-append : (us vs : List User) → accounts_of (us ++ vs) ≡ accounts_of us ++ accounts_of vs
accounts_of-append [] vs = refl
accounts_of-append (u ∷ us) vs = ap (λ r. account_of u ∷ r) (accounts_of-append us vs)

-- In a sound table, and for a name and a password of less than 255 bytes with no byte 0 in them,
-- registration keeps the table sound. With the table full it returns 1; of a name that is registered it returns -1; in both
-- cases the table is left as it was. Otherwise it returns 0, and the account comes behind those that
-- were there.
pub socksv5_register_user_lem :
    (name pass : List ℕ) (r : Registry)
    → IsSound r
    → IsShort name
    → IsShort pass
    → let (code, r') = socksv5_register_user name pass r in
      IsSound r'
      × (((r.registered_users ≡ max_users) × (code ≡ pos 1) × (r' ≡ r))
          ⊎ (((r.registered_users < max_users)
                × (has_name name (accounts r) ≡ true)
                × (code ≡ negsuc 0)
                × (r' ≡ r))
              ⊎ ((r.registered_users < max_users)
                  × (has_name name (accounts r) ≡ false)
                  × (code ≡ pos 0)
                  × (accounts r' ≡ accounts r ++ (name, pass) ∷ []))))
unfolding socksv5_register_user
socksv5_register_user_lem name pass r s n p = elim (Bool-cases (leb max_users r.registered_users)) [
  | inl full ↦ let bound = s.count in rw full (s, inl (omega tests, refl, refl))
  | inr free ↦
      let l : r.registered_users < max_users = ground arith in
      let next : r.registered_users + 1 ≡ suc r.registered_users = omega arith in
      elim (index_of-has_name name (active r) 0) [
        | inl (h, f) ↦
            let entry = user_entry name pass in
            let grown : take (r.registered_users + 1) (set r.users r.registered_users entry)
                ≡ active r ++ entry ∷ [] =
              ap (λ k. take k (set r.users r.registered_users entry)) next
              ∙ take-set_end r.registered_users r.users entry (omega arith) in
            let listed : accounts_of
                  (take (r.registered_users + 1) (set r.users r.registered_users entry))
                ≡ accounts r ++ (name, pass) ∷ [] =
              ap accounts_of grown
              ∙ accounts_of-append (active r) (entry ∷ [])
              ∙ ap (λ a. accounts r ++ a ∷ []) (account-user_entry name pass n p) in
            rw (free, f)
              (
                record {
                  table = length-set r.users r.registered_users entry ∙ s.table;
                  count = omega arith;
                  terminated = subst (All IsTerminated) (sym grown) (
                      All-append IsTerminated (active r) (entry ∷ []) s.terminated
                        (IsTerminated-user_entry name pass n, tt));
                  distinct =
                      subst Distinct (sym listed)
                        (Distinct-append (accounts r) (name, pass) s.distinct h);
                },
                inr (inr (l, h, refl, listed)),
              )
        | inr (h, (k, f, _, _)) ↦ rw (free, f) (s, inr (inl (l, h, refl, refl)))
      ]
]

-- What `close_gap` leaves in use, and what stays in use where there is no gap to close.
pub close_gap_lem {ℓ} :
    {A : Type ℓ} (us : List A) (i n : ℕ)
    → i < n
    → n ≤ length us
    → take (n - 1) (if ltb (i + 1) n then close_gap us i n else us)
      ≡ take i (take n us) ++ drop (suc i) (take n us)
unfolding close_gap
close_gap_lem us i n l m =
    let head = take i us in
    let body = take (n - suc i) (drop (suc i) us) in
    let both : length (head ++ body) ≡ n - 1 = omega (
      arith,
      length-append head body,
      length-take {ℓ} i us,
      length-take {ℓ} (n - suc i) (drop (suc i) us),
      length-drop {ℓ} (suc i) us,
    ) in
    let target : head ++ body ≡ take i (take n us) ++ drop (suc i) (take n us) =
      ap₂ (λ a b. a ++ b) (sym (take-take i n us (omega arith))) (sym (drop-take (suc i) n us)) in
    elim (Bool-cases (ltb (i + 1) n)) [
      | inl e ↦ rw e (
          ap (take (n - 1)) (sym (append_assoc head body (drop (n - 1) us)))
          ∙ ap (λ k. take k ((head ++ body) ++ drop (n - 1) us)) (sym both)
          ∙ take-length-append (head ++ body) (drop (n - 1) us)
          ∙ target)
      | inr e ↦
          let last : n ≡ suc i = ground arith in
          let one : n - 1 ≡ i = omega arith in
          let none_left : 0 ≡ n - suc i = omega arith in
          rw e (
            ap (λ k. take k us) one
            ∙ sym (append-nil head)
            ∙ ap (λ k. head ++ take k (drop (suc i) us)) none_left
            ∙ target)
    ]

pub length-close_gap {ℓ} :
    {A : Type ℓ} (us : List A) (i n : ℕ)
    → i < n
    → n ≤ length us
    → length (if ltb (i + 1) n then close_gap us i n else us) ≡ length us
unfolding close_gap
length-close_gap us i n l m =
    let head = take i us in
    let body = take (n - suc i) (drop (suc i) us) in
    let rest = drop (n - 1) us in
    let sum : length (head ++ (body ++ rest)) ≡ length us = omega (
      arith,
      length-append head (body ++ rest),
      length-append body rest,
      length-take {ℓ} i us,
      length-take {ℓ} (n - suc i) (drop (suc i) us),
      length-drop {ℓ} (suc i) us,
      length-drop {ℓ} (n - 1) us,
    ) in
    elim (Bool-cases (ltb (i + 1) n)) [ inl e ↦ rw e sum | inr e ↦ rw e ]

-- Unregistration keeps a sound table sound. Of a name that is not registered it returns -1 and leaves
-- the table as it was.
-- Otherwise it returns 0, and the first account of that name is gone, the others in their order.
pub socksv5_unregister_user_lem :
    (name : List ℕ) (r : Registry)
    → IsSound r
    → let (code, r') = socksv5_unregister_user name r in
      IsSound r'
      × (((has_name name (accounts r) ≡ false) × (code ≡ negsuc 0) × (r' ≡ r))
          ⊎ ((has_name name (accounts r) ≡ true)
              × (code ≡ pos 0)
              × (accounts r' ≡ remove_name name (accounts r))))
unfolding socksv5_unregister_user
socksv5_unregister_user_lem name r s = elim (index_of-has_name name (active r) 0) [
  | inl (h, f) ↦ rw (f, socksv5_unregister_user) (s, inl (h, refl, refl))
  | inr (h, (k, f, l, q)) ↦
      let inside : k < r.registered_users =
        omega (arith, length-take {0} r.registered_users r.users) in
      let moved = close_gap_lem r.users k r.registered_users inside (omega arith) in
      let f' : index_of name (active r) 0 ≡ some k = f ∙ ap some (omega arith) in
      rw (f', socksv5_unregister_user)
        (
          record {
            table = length-close_gap r.users k r.registered_users inside (omega arith) ∙ s.table;
            count = omega arith;
            terminated = subst (All IsTerminated) (sym moved) (
                All-append IsTerminated (take k (active r)) (drop (suc k) (active r))
                  (All-take IsTerminated k (active r) s.terminated)
                  (All-drop IsTerminated (suc k) (active r) s.terminated));
            distinct =
                subst Distinct (sym (ap accounts_of moved ∙ q))
                  (Distinct-remove_name name (accounts r) s.distinct);
          },
          inr (h, refl, ap accounts_of moved ∙ q),
        )
]
