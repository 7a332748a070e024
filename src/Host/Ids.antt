-- ===== src/Host/Ids.antt =====
-- seteuid, by which the programs of Assignment1 take the id of a file's owner and give it back.
use nss_i_assignments.Base.{ℕ, ◌≡◌, refl, ◌⊎◌, inl, inr, true, false, ==_iff, arith, Bool-cases}
use nss_i_assignments.Host.{Host, may_seteuid, seteuid}

-- The process can return to its effective id: it is the real or the saved one, or the process has the
-- capability.
abbrev pub IsHome : Host → Type 0
IsHome h = (h.euid ≡ h.ruid) ⊎ ((h.euid ≡ h.suid) ⊎ (h.cap_setuid ≡ true))

may_return :
    (h h' : Host)
    → IsHome h
    → h'.ruid ≡ h.ruid
    → h'.suid ≡ h.suid
    → h'.cap_setuid ≡ h.cap_setuid
    → may_seteuid h.euid h' ≡ true
may_return h h' (inl e) r s c = ground (arith, ==_iff h.euid h'.ruid)
may_return h h' (inr (inl e)) r s c = ground (arith, ==_iff h.euid h'.suid)
may_return h h' (inr (inr e)) r s c = rw (c, e) refl

pub seteuid-back :
    (h h' : Host)
    → IsHome h
    → h'.ruid ≡ h.ruid
    → h'.suid ≡ h.suid
    → h'.cap_setuid ≡ h.cap_setuid
    → seteuid h.euid h' ≡ (true, record h' { euid = h.euid })
seteuid-back h h' home r s c = rw (may_return h h' home r s c)

pub seteuid_allowed :
    (u : ℕ) (h : Host) → may_seteuid u h ≡ true → seteuid u h ≡ (true, record h { euid = u })
seteuid_allowed u h e = rw e

pub seteuid_refused : (u : ℕ) (h : Host) → may_seteuid u h ≡ false → seteuid u h ≡ (false, h)
seteuid_refused u h e = rw e

-- The state behind seteuid(getuid()), which always succeeds.
abbrev pub as_caller : Host → Host
as_caller h = record h { euid = h.ruid }

pub caller_allowed : (h : Host) → may_seteuid h.ruid h ≡ true
caller_allowed h = ground (arith, ==_iff h.ruid h.ruid)

pub seteuid-files : (u : ℕ) (h : Host) → (seteuid u h).1.files ≡ h.files
seteuid-files u h = elim (Bool-cases (may_seteuid u h)) [ inl m ↦ rw m refl | inr m ↦ rw m refl ]

pub seteuid-ruid : (u : ℕ) (h : Host) → (seteuid u h).1.ruid ≡ h.ruid
seteuid-ruid u h = elim (Bool-cases (may_seteuid u h)) [ inl m ↦ rw m refl | inr m ↦ rw m refl ]
