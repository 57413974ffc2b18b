-- ===== src/Procs/Privilege.antt =====
-- What a process without privileges can make of its user and group numbers.
use blackmount.Common.{
  ◌≡◌, sym, ap, subst, true, false, ◌&&◌, ◌||◌, not, if◌then◌else◌, inl, inr, Bool-cases, arith,
}
use blackmount.Common.Int.{ℤ, pos, negsuc}
use blackmount.Users.{Accounts, user_is_root}
use blackmount.Procs.{Proc}
use blackmount.Procs.Identity.{
  same_id, given, setuid, seteuid, set_effective, setreuid, setgid, setegid, set_effective_group,
  setregid, foreign_gid, setresgid,
}

same_id_eq : (a b : ℤ) → same_id a b ≡ true → a ≡ b
same_id_eq (pos a) (pos b) e = let eq : a ≡ b = ground (arith, e) in ap pos eq
same_id_eq (pos a) (negsuc b) e = absurd (ground (arith, e))
same_id_eq (negsuc a) (pos b) e = absurd (ground (arith, e))
same_id_eq (negsuc a) (negsuc b) e = let eq : a ≡ b = ground (arith, e) in ap negsuc eq

module _ (P : ℤ → Type 0) where
  abbrev pub AllUids : Proc → Type 0
  AllUids p = P p.owner × P p.euid × P p.saved_uid

  abbrev pub AllGids : Proc → Type 0
  AllGids p = P p.group × P p.egroup × P p.saved_gid

  same_id-transfer : (a b : ℤ) → same_id a b ≡ true → P b → P a
  same_id-transfer a b e h = subst P (sym (same_id_eq a b e)) h

  -- A number that is one of two, or of three, that have the property.
  one_of_two : (x a b : ℤ) → (same_id x a || same_id x b) ≡ true → P a → P b → P x
  one_of_two x a b e ha hb = elim (Bool-cases (same_id x a)) [
    | inl same ↦ same_id-transfer x a same ha
    | inr other ↦ same_id-transfer x b (ground (arith, other, e)) hb
  ]

  none_of_three :
      (x a b c : ℤ)
      → (not (same_id x a) && not (same_id x b) && not (same_id x c)) ≡ false
      → P a
      → P b
      → P c
      → P x
  none_of_three x a b c e ha hb hc = elim (Bool-cases (same_id x a)) [
    | inl same ↦ same_id-transfer x a same ha
    | inr other ↦ elim (Bool-cases (same_id x b)) [
      | inl same ↦ same_id-transfer x b same hb
      | inr another ↦ same_id-transfer x c (ground (arith, other, another, e)) hc
    ]
  ]

  module _ (acc : Accounts) (p : Proc) (plain : user_is_root acc p.euid ≡ false) where
    pub setuid-AllUids : (uid : ℤ) → AllUids p → AllUids (setuid acc uid p).1
    unfolding setuid
    setuid-AllUids uid h = elim (Bool-cases (same_id uid p.owner || same_id uid p.saved_uid)) [
      | inl ok ↦ rw (plain, ok) (h.0, one_of_two uid p.owner p.saved_uid ok h.0 h.2, h.2)
      | inr no_right ↦ rw (plain, no_right) h
    ]

    pub seteuid-AllUids : (uid : ℤ) → AllUids p → AllUids (seteuid acc uid p).1
    unfolding seteuid
    seteuid-AllUids uid h = elim (Bool-cases (same_id uid p.owner || same_id uid p.saved_uid)) [
      | inl ok ↦ rw (plain, ok) (h.0, one_of_two uid p.owner p.saved_uid ok h.0 h.2, h.2)
      | inr no_right ↦ rw (plain, no_right) h
    ]

    pub setgid-AllGids : (gid : ℤ) → AllGids p → AllGids (setgid acc gid p).1
    unfolding setgid
    setgid-AllGids gid h = elim (Bool-cases (same_id gid p.group || same_id gid p.saved_gid)) [
      | inl ok ↦ rw (plain, ok) (h.0, one_of_two gid p.group p.saved_gid ok h.0 h.2, h.2)
      | inr no_right ↦ rw (plain, no_right) h
    ]

    pub setegid-AllGids : (gid : ℤ) → AllGids p → AllGids (setegid acc gid p).1
    unfolding setegid
    setegid-AllGids gid h = elim (Bool-cases (same_id gid p.group || same_id gid p.saved_gid)) [
      | inl ok ↦ rw (plain, ok) (h.0, one_of_two gid p.group p.saved_gid ok h.0 h.2, h.2)
      | inr no_right ↦ rw (plain, no_right) h
    ]

  set_effective-AllUids :
      (old_r ruid euid : ℤ) (p : Proc)
      → P old_r
      → AllUids p
      → AllUids (set_effective false old_r ruid euid p).1
  unfolding set_effective
  set_effective-AllUids old_r ruid euid p ho h = elim (Bool-cases (given euid)) [
    | inr kept ↦ elim (Bool-cases (given ruid)) [
      | inl changed ↦ rw (kept, changed) (h.0, h.1, h.1)
      | inr same ↦ rw (kept, same) h
    ]
    | inl asked ↦
        elim (Bool-cases (
          not (same_id euid old_r)
          && not (same_id euid p.euid)
          && not (same_id euid p.saved_uid))) [
            | inl refused ↦ rw (asked, refused) h
            | inr allowed ↦
                let e = none_of_three euid old_r p.euid p.saved_uid allowed ho h.1 h.2 in
                elim (Bool-cases (given ruid || not (same_id euid old_r))) [
                  | inl saves ↦ rw (asked, allowed, saves) (h.0, e, e)
                  | inr keeps ↦ rw (asked, allowed, keeps) (h.0, e, h.2)
                ]
          ]
  ]

  pub setreuid-AllUids :
      (acc : Accounts) (ruid euid : ℤ) (p : Proc)
      → user_is_root acc p.euid ≡ false
      → AllUids p
      → AllUids (setreuid acc ruid euid p).1
  unfolding setreuid
  setreuid-AllUids acc ruid euid p plain h = elim (Bool-cases (given ruid)) [
    | inr kept ↦ rw (kept, plain) (set_effective-AllUids p.owner ruid euid p h.0 h)
    | inl asked ↦ elim (Bool-cases (not (same_id ruid p.owner) && not (same_id ruid p.euid))) [
      | inl refused ↦ rw (asked, plain, refused) h
      | inr allowed ↦
          let r = none_of_three ruid p.owner p.euid p.euid (ground (arith, allowed)) h.0 h.1 h.1 in
          rw (asked, plain, allowed)
            (set_effective-AllUids p.owner ruid euid (record p { owner = ruid }) h.0 (r, h.1, h.2))
    ]
  ]

  set_effective_group-AllGids :
      (old_r rgid egid : ℤ) (p : Proc)
      → P old_r
      → AllGids p
      → AllGids (set_effective_group false old_r rgid egid p).1
  unfolding set_effective_group
  set_effective_group-AllGids old_r rgid egid p ho h = elim (Bool-cases (given egid)) [
    | inr kept ↦ elim (Bool-cases (given rgid)) [
      | inl changed ↦ rw (kept, changed) (h.0, h.1, h.1)
      | inr same ↦ rw (kept, same) h
    ]
    | inl asked ↦
        elim (Bool-cases (
          not (same_id egid old_r)
          && not (same_id egid p.egroup)
          && not (same_id egid p.saved_gid))) [
            | inl refused ↦ rw (asked, refused) h
            | inr allowed ↦
                let e = none_of_three egid old_r p.egroup p.saved_gid allowed ho h.1 h.2 in
                elim (Bool-cases (given rgid || not (same_id egid old_r))) [
                  | inl saves ↦ rw (asked, allowed, saves) (h.0, e, e)
                  | inr keeps ↦ rw (asked, allowed, keeps) (h.0, e, h.2)
                ]
          ]
  ]

  pub setregid-AllGids :
      (acc : Accounts) (rgid egid : ℤ) (p : Proc)
      → user_is_root acc p.euid ≡ false
      → AllGids p
      → AllGids (setregid acc rgid egid p).1
  unfolding setregid
  setregid-AllGids acc rgid egid p plain h = elim (Bool-cases (given rgid)) [
    | inr kept ↦ rw (kept, plain) (set_effective_group-AllGids p.group rgid egid p h.0 h)
    | inl asked ↦ elim (Bool-cases (not (same_id rgid p.group) && not (same_id rgid p.egroup))) [
      | inl refused ↦ rw (asked, plain, refused) h
      | inr allowed ↦
          let r =
            none_of_three rgid p.group p.egroup p.egroup (ground (arith, allowed)) h.0 h.1 h.1 in
          rw (asked, plain, allowed)
            (set_effective_group-AllGids p.group rgid egid (record p { group = rgid }) h.0
              (r, h.1, h.2))
    ]
  ]

  -- A number that is kept, or is one of the three.
  chosen :
      (id old : ℤ) (p : Proc)
      → AllGids p
      → foreign_gid id p ≡ false
      → P old
      → P (if given id then id else old)
  chosen id old p h ours ho = elim (Bool-cases (given id)) [
    | inr kept ↦ rw kept ho
    | inl asked ↦
        rw asked
          (none_of_three id p.group p.egroup p.saved_gid (ground (arith, asked, ours)) h.0 h.1 h.2)
  ]

  pub setresgid-AllGids :
      (acc : Accounts) (rgid egid sgid : ℤ) (p : Proc)
      → user_is_root acc p.euid ≡ false
      → AllGids p
      → AllGids (setresgid acc rgid egid sgid p).1
  unfolding setresgid
  setresgid-AllGids acc rgid egid sgid p plain h =
      elim (Bool-cases (foreign_gid rgid p || foreign_gid egid p || foreign_gid sgid p)) [
        | inl refused ↦ rw (plain, refused) h
        | inr allowed ↦
            rw (plain, allowed)
              (
                chosen rgid p.group p h (ground (arith, allowed)) h.0,
                chosen egid p.egroup p h (ground (arith, allowed)) h.1,
                chosen sgid p.saved_gid p h (ground (arith, allowed)) h.2,
              )
      ]
