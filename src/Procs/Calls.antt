-- ===== src/Procs/Calls.antt =====
-- Any sequence of the identity calls of proc.c by one process.
use blackmount.Common.{
  ℕ, ◌<◌, ◌≡◌, refl, ap, false, List, [], ◌∷◌, length, length-set, get_or-set_self, ◌⊎◌, inl, inr,
  arith,
}
use blackmount.Common.Int.{ℤ, pos}
use blackmount.Users.{Accounts, user_is_root}
use blackmount.Procs.{Proc, Pcb, Procs, pcb_at, put_pcb, unused_pcb}
use blackmount.Procs.Identity.{
  on_current, setuid, seteuid, setreuid, setgid, setegid, setregid, setresgid, proc_setuid,
  proc_seteuid, proc_setreuid, proc_setgid, proc_setegid, proc_setregid, proc_setresgid,
  set_effective, set_effective_group,
}
use blackmount.Procs.Privilege.{
  AllUids, AllGids, setuid-AllUids, seteuid-AllUids, setreuid-AllUids, setgid-AllGids,
  setegid-AllGids, setregid-AllGids, setresgid-AllGids,
}

pub data Request : Type 0 where
  asks_uid asks_euid asks_gid asks_egid : ℤ → Request
  asks_reuid asks_regid : ℤ → ℤ → Request
  asks_resgid : ℤ → ℤ → ℤ → Request

-- The table after a call, whatever the call returns.
unfoldable pub serve : Accounts → Request → Procs → Procs
unfolding proc_setuid proc_seteuid proc_setreuid proc_setgid proc_setegid proc_setregid
    proc_setresgid
serve acc (asks_uid u) procs = (proc_setuid acc procs u).1
serve acc (asks_euid u) procs = (proc_seteuid acc procs u).1
serve acc (asks_gid g) procs = (proc_setgid acc procs g).1
serve acc (asks_egid g) procs = (proc_setegid acc procs g).1
serve acc (asks_reuid r e) procs = (proc_setreuid acc procs r e).1
serve acc (asks_regid r e) procs = (proc_setregid acc procs r e).1
serve acc (asks_resgid r e s) procs = (proc_setresgid acc procs r e s).1

unfoldable pub serve_all : Accounts → List Request → Procs → Procs
unfolding serve
serve_all acc [] procs = procs
serve_all acc (r ∷ rs) procs = serve_all acc rs (serve acc r procs)

-- What a call makes of the process.
change : Accounts → Request → Proc → Proc
change acc (asks_uid u) p = (setuid acc u p).1
change acc (asks_euid u) p = (seteuid acc u p).1
change acc (asks_gid g) p = (setgid acc g p).1
change acc (asks_egid g) p = (setegid acc g p).1
change acc (asks_reuid r e) p = (setreuid acc r e p).1
change acc (asks_regid r e) p = (setregid acc r e p).1
change acc (asks_resgid r e s) p = (setresgid acc r e s p).1

abbrev SameUids : Proc → Proc → Type 0
SameUids q p = (q.owner ≡ p.owner) × (q.euid ≡ p.euid) × (q.saved_uid ≡ p.saved_uid)

abbrev SameGids : Proc → Proc → Type 0
SameGids q p = (q.group ≡ p.group) × (q.egroup ≡ p.egroup) × (q.saved_gid ≡ p.saved_gid)

setgid-SameUids : (acc : Accounts) (g : ℤ) (p : Proc) → SameUids (setgid acc g p).1 p
unfolding setgid
setgid-SameUids acc g p = (ground arith, ground arith, ground arith)

setegid-SameUids : (acc : Accounts) (g : ℤ) (p : Proc) → SameUids (setegid acc g p).1 p
unfolding setegid
setegid-SameUids acc g p = (ground arith, ground arith, ground arith)

setregid-SameUids : (acc : Accounts) (r e : ℤ) (p : Proc) → SameUids (setregid acc r e p).1 p
unfolding setregid set_effective_group
setregid-SameUids acc r e p = (ground arith, ground arith, ground arith)

setresgid-SameUids : (acc : Accounts) (r e s : ℤ) (p : Proc) → SameUids (setresgid acc r e s p).1 p
unfolding setresgid
setresgid-SameUids acc r e s p = (ground arith, ground arith, ground arith)

setuid-SameGids : (acc : Accounts) (u : ℤ) (p : Proc) → SameGids (setuid acc u p).1 p
unfolding setuid
setuid-SameGids acc u p = (ground arith, ground arith, ground arith)

seteuid-SameGids : (acc : Accounts) (u : ℤ) (p : Proc) → SameGids (seteuid acc u p).1 p
unfolding seteuid
seteuid-SameGids acc u p = (ground arith, ground arith, ground arith)

setreuid-SameGids : (acc : Accounts) (r e : ℤ) (p : Proc) → SameGids (setreuid acc r e p).1 p
unfolding setreuid set_effective
setreuid-SameGids acc r e p = (ground arith, ground arith, ground arith)

abbrev Inside : (ℤ → Type 0) → (ℤ → Type 0) → Proc → Type 0
Inside P Q p = AllUids P p × AllGids Q p

module _ (P Q : ℤ → Type 0) (acc : Accounts)
    (plain : (x : ℤ) → P x → user_is_root acc x ≡ false) where
  same_uids : (q p : Proc) → SameUids q p → AllUids P p → AllUids P q
  same_uids q p (o, e, s) h = rw (o, e, s) h

  same_gids : (q p : Proc) → SameGids q p → AllGids Q p → AllGids Q q
  same_gids q p (g, e, s) h = rw (g, e, s) h

  change-Inside : (r : Request) (p : Proc) → Inside P Q p → Inside P Q (change acc r p)
  unfolding change
  change-Inside (asks_uid u) p h = (
    setuid-AllUids P acc p (plain p.euid h.0.1) u h.0,
    same_gids (setuid acc u p).1 p (setuid-SameGids acc u p) h.1,
  )
  change-Inside (asks_euid u) p h = (
    seteuid-AllUids P acc p (plain p.euid h.0.1) u h.0,
    same_gids (seteuid acc u p).1 p (seteuid-SameGids acc u p) h.1,
  )
  change-Inside (asks_reuid r e) p h = (
    setreuid-AllUids P acc r e p (plain p.euid h.0.1) h.0,
    same_gids (setreuid acc r e p).1 p (setreuid-SameGids acc r e p) h.1,
  )
  change-Inside (asks_gid g) p h = (
    same_uids (setgid acc g p).1 p (setgid-SameUids acc g p) h.0,
    setgid-AllGids Q acc p (plain p.euid h.0.1) g h.1,
  )
  change-Inside (asks_egid g) p h = (
    same_uids (setegid acc g p).1 p (setegid-SameUids acc g p) h.0,
    setegid-AllGids Q acc p (plain p.euid h.0.1) g h.1,
  )
  change-Inside (asks_regid r e) p h = (
    same_uids (setregid acc r e p).1 p (setregid-SameUids acc r e p) h.0,
    setregid-AllGids Q acc r e p (plain p.euid h.0.1) h.1,
  )
  change-Inside (asks_resgid r e s) p h = (
    same_uids (setresgid acc r e s p).1 p (setresgid-SameUids acc r e s p) h.0,
    setresgid-AllGids Q acc r e s p (plain p.euid h.0.1) h.1,
  )

serve-change :
    (acc : Accounts) (r : Request) (procs : Procs) (c : ℕ)
    → procs.current_proc ≡ pos c
    → serve acc r procs
      ≡ put_pcb procs c (record (pcb_at procs c) { proc = change acc r (pcb_at procs c).proc })
unfolding serve change proc_setuid proc_seteuid proc_setreuid proc_setgid proc_setegid proc_setregid
    proc_setresgid
serve-change acc (asks_uid u) procs c e = ap (λ (k : ℤ). (on_current (setuid acc u) procs k).1) e
serve-change acc (asks_euid u) procs c e = ap (λ (k : ℤ). (on_current (seteuid acc u) procs k).1) e
serve-change acc (asks_gid g) procs c e = ap (λ (k : ℤ). (on_current (setgid acc g) procs k).1) e
serve-change acc (asks_egid g) procs c e = ap (λ (k : ℤ). (on_current (setegid acc g) procs k).1) e
serve-change acc (asks_reuid r s) procs c e =
    ap (λ (k : ℤ). (on_current (setreuid acc r s) procs k).1) e
serve-change acc (asks_regid r s) procs c e =
    ap (λ (k : ℤ). (on_current (setregid acc r s) procs k).1) e
serve-change acc (asks_resgid r s t) procs c e =
    ap (λ (k : ℤ). (on_current (setresgid acc r s t) procs k).1) e

-- A number that the process has already.
abbrev pub OwnUid : Proc → ℤ → Type 0
OwnUid p x = (x ≡ p.owner) ⊎ ((x ≡ p.euid) ⊎ (x ≡ p.saved_uid))

abbrev pub OwnGid : Proc → ℤ → Type 0
OwnGid p x = (x ≡ p.group) ⊎ ((x ≡ p.egroup) ⊎ (x ≡ p.saved_gid))

serve_all-Inside :
    (P Q : ℤ → Type 0) (acc : Accounts)
    → ((x : ℤ) → P x → user_is_root acc x ≡ false)
    → (rs : List Request) (procs : Procs) (c : ℕ) → procs.current_proc ≡ pos c
    → c < length procs.proc_table
    → Inside P Q (pcb_at procs c).proc
    → Inside P Q (pcb_at (serve_all acc rs procs) c).proc
unfolding serve_all
serve_all-Inside P Q acc plain [] procs c e near h = h
serve_all-Inside P Q acc plain (r ∷ rs) procs c e near h =
    let new : Pcb = record (pcb_at procs c) { proc = change acc r (pcb_at procs c).proc } in
    let next : Procs = put_pcb procs c new in
    let now : (pcb_at next c).proc ≡ change acc r (pcb_at procs c).proc =
      ap (λ (q : Pcb). q.proc) (get_or-set_self procs.proc_table c new unused_pcb near) in
    let long : length next.proc_table ≡ length procs.proc_table =
      length-set procs.proc_table c new in
    rw (serve-change acc r procs c e, serve_all)
      (serve_all-Inside P Q acc plain rs next c e (rw long near)
        (rw now (change-Inside P Q acc plain r (pcb_at procs c).proc h)))

-- A process that has no root user number can make identity calls in any order, with any arguments:
-- its real, effective and saved user numbers stay among the three that it had, and so do its group
-- numbers, whether the calls succeed or fail.
pub serve_all_lem :
    (acc : Accounts) (rs : List Request) (procs : Procs) (c : ℕ)
    → procs.current_proc ≡ pos c
    → c < length procs.proc_table
    → user_is_root acc (pcb_at procs c).proc.owner ≡ false
    → user_is_root acc (pcb_at procs c).proc.euid ≡ false
    → user_is_root acc (pcb_at procs c).proc.saved_uid ≡ false
    → let p = (pcb_at procs c).proc in
      let q = (pcb_at (serve_all acc rs procs) c).proc in
      (OwnUid p q.owner × OwnUid p q.euid × OwnUid p q.saved_uid)
      × (OwnGid p q.group × OwnGid p q.egroup × OwnGid p q.saved_gid)
serve_all_lem acc rs procs c e near owner euid saved =
    let p : Proc = (pcb_at procs c).proc in
    let plain : (x : ℤ) → OwnUid p x → user_is_root acc x ≡ false = λ x h. elim h [
      | inl a ↦ rw a owner
      | inr b ↦ elim b [ inl a ↦ rw a euid | inr a ↦ rw a saved ]
    ] in
    serve_all-Inside (OwnUid p) (OwnGid p) acc plain rs procs c e near
      ((inl refl, inr (inl refl), inr (inr refl)), (inl refl, inr (inl refl), inr (inr refl)))
