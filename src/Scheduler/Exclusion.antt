-- ===== src/Scheduler/Exclusion.antt =====
-- The named lock of packages/storage/src/scheduler/store.ts excludes its other owners.
use open_blog_agent.Prelude.{
  ℕ, ◌+◌, ◌<◌, String, ◌≡◌, ◌≢◌, ◌⊎◌, inl, inr, Bool, true, false, ◌&&◌, not, ◌==◌, eq_iff, eq_refl,
  Option, none, some, List, [], ◌∷◌, keep, find, All, arith, refl, if◌then◌else◌, Bool-cases, ap,
  ◌∙◌, sym, subst,
}
use open_blog_agent.Storage.Tables.Lookup.{row-upsert, upserted}
use open_blog_agent.Scheduler.{
  Lock, LockResult, acquired, held, lock_named, is_held, take_lock, acquire_free, acquire_lock,
  release_lock,
}

-- A call of `acquireLock` (name, owner, ttl, time) or of `releaseLock`.
pub data Call : Type 0 where
  taking : String → String → ℕ → ℕ → Call
  freeing : String → String → Call

unfoldable pub called : Call → List Lock → List Lock
unfolding acquire_lock release_lock
called (taking name owner ttl now) locks = (acquire_lock name owner ttl now locks).1
called (freeing name owner) locks = release_lock name owner locks

unfoldable pub all_called : List Call → List Lock → List Lock
unfolding called
all_called [] locks = locks
all_called (c ∷ cs) locks = all_called cs (called c locks)

-- The call is of another lock, or of another owner and, if it takes the lock, before `expires`.
unfoldable pub IsForeign : String → String → ℕ → Call → Type 0
IsForeign name owner expires (taking n b ttl now) = (n ≢ name) ⊎ ((b ≢ owner) × (now < expires))
IsForeign name owner expires (freeing n b) = (n ≢ name) ⊎ (b ≢ owner)

-- The owner holds the lock until `expires`.
unfoldable pub Holds : String → String → ℕ → List Lock → Type 0
Holds name owner expires locks =
    (l : Lock) × (lock_named name locks ≡ some l) × (l.owner ≡ owner) × (l.expires_at ≡ expires)

lock_named-name :
    (name : String) (locks : List Lock) (l : Lock) → lock_named name locks ≡ some l → l.name ≡ name
lock_named-name name [] l h = cc
lock_named-name name (m ∷ locks) l h = elim (Bool-cases (m.name == name)) [
  | inl here ↦ ground (arith, eq_iff m.name name)
  | inr later ↦ lock_named-name name locks l (ground arith)
]

find-keep :
    (p t : Lock → Bool) (locks : List Lock) (l : Lock)
    → find p locks ≡ some l
    → t l ≡ true
    → find p (keep t locks) ≡ some l
find-keep p t [] l h k = h
find-keep p t (m ∷ locks) l h k = elim (Bool-cases (p m)) [
  | inl here ↦
      let same : m ≡ l = ground arith in
      let kept : t m ≡ true = subst (λ x. t x ≡ true) (sym same) k in ground arith
  | inr later ↦ let rest = find-keep p t locks l (ground arith) k in ground (arith, rest)
]

named-take_lock :
    (name owner j : String) (now expires : ℕ) (locks : List Lock)
    → lock_named j (take_lock name owner now expires locks) ≡ (
        if name == j
        then some (
            upserted
              (λ l. record l { owner = owner; acquired_at = now; expires_at = expires })
              (record { name = name; owner = owner; acquired_at = now; expires_at = expires })
              (lock_named j locks))
        else lock_named j locks)
unfolding take_lock
named-take_lock name owner j now expires locks =
    row-upsert (λ l. l.name)
      (λ l. record l { owner = owner; acquired_at = now; expires_at = expires })
      (record { name = name; owner = owner; acquired_at = now; expires_at = expires }) name j
      (λ r e. e) refl locks

held-acquire_free :
    (name b : String) (ttl now : ℕ) (l : Lock) (owner : String) (expires : ℕ) (locks : List Lock)
    → l.owner ≡ owner
    → l.expires_at ≡ expires
    → b ≢ owner
    → now < expires
    → acquire_free name b ttl now (some l) locks ≡ (held owner expires, locks)
unfolding acquire_free is_held
held-acquire_free name b ttl now l owner expires locks e f other early =
    ground (arith, e, f, eq_iff l.owner b)

-- While the lock is held, another owner gets it not before it expires.
held-acquire_lock :
    (name owner b : String) (expires ttl now : ℕ) (locks : List Lock)
    → Holds name owner expires locks
    → b ≢ owner
    → now < expires
    → acquire_lock name b ttl now locks ≡ (held owner expires, locks)
unfolding acquire_lock Holds
held-acquire_lock name owner b expires ttl now locks h other early =
    let l = h.0 in
    ap (λ found. acquire_free name b ttl now found locks) h.1
    ∙ held-acquire_free name b ttl now l owner expires locks h.2 h.3 other early

different : (s t : String) → (s == t) ≡ false → s ≢ t
different s t h e = let same = (eq_iff s t).1 e in cc

acquire_free-elsewhere :
    (name n b : String) (ttl now : ℕ) (found : Option Lock) (locks : List Lock)
    → (n == name) ≡ false
    → lock_named name (acquire_free n b ttl now found locks).1 ≡ lock_named name locks
unfolding acquire_free
acquire_free-elsewhere name n b ttl now none locks there =
    named-take_lock n b name now (now + ttl) locks ∙ rw there refl
acquire_free-elsewhere name n b ttl now (some l) locks there =
    elim (Bool-cases (is_held b now (some l))) [
      | inl e ↦ rw (e, acquire_free) refl
      | inr e ↦
          rw (e, acquire_free) (named-take_lock n b name now (now + ttl) locks ∙ rw there refl)
    ]

elsewhere-Holds :
    (name owner : String) (expires : ℕ) (n b : String) (ttl now : ℕ) (locks : List Lock)
    → n ≢ name
    → Holds name owner expires locks
    → Holds name owner expires (acquire_lock n b ttl now locks).1
unfolding Holds acquire_lock
elsewhere-Holds name owner expires n b ttl now locks foreign h =
    let there : (n == name) ≡ false = ground (arith, eq_iff n name) in
    (h.0, acquire_free-elsewhere name n b ttl now (lock_named n locks) locks there ∙ h.1, h.2, h.3)

-- Another owner's call, or one of another lock, leaves the lock held.
called-Holds :
    (name owner : String) (expires : ℕ) (c : Call) (locks : List Lock)
    → IsForeign name owner expires c
    → Holds name owner expires locks
    → Holds name owner expires (called c locks)
unfolding called Holds IsForeign release_lock
called-Holds name owner expires (freeing n b) locks f h =
    let l = h.0 in
    (
      l,
      find-keep (λ x. x.name == name) (λ x. not (x.name == n && x.owner == b)) locks l h.1
          (ground
            (arith, f, lock_named-name name locks l h.1, h.2, eq_iff l.name n, eq_iff l.owner b)),
      h.2,
      h.3,
    )
called-Holds name owner expires (taking n b ttl now) locks (inl foreign) h =
    elsewhere-Holds name owner expires n b ttl now locks foreign h
called-Holds name owner expires (taking n b ttl now) locks (inr foreign) h =
    elim (Bool-cases (n == name)) [
      | inl here ↦
          let same : name ≡ n = sym ((eq_iff n name).0 here) in
          let refused =
            held-acquire_lock name owner b expires ttl now locks h foreign.0 foreign.1 in
          subst (λ x. Holds name owner expires (acquire_lock x b ttl now locks).1) same
            (subst (Holds name owner expires)
              (ap (λ (r : LockResult × List Lock). r.1) (sym refused)) h)
      | inr there ↦
          elsewhere-Holds name owner expires n b ttl now locks (λ e. different n name there e) h
    ]

all_called-Holds :
    (name owner : String) (expires : ℕ) (cs : List Call) (locks : List Lock)
    → All (IsForeign name owner expires) cs
    → Holds name owner expires locks
    → Holds name owner expires (all_called cs locks)
unfolding all_called
all_called-Holds name owner expires [] locks f h = h
all_called-Holds name owner expires (c ∷ cs) locks f h =
    all_called-Holds name owner expires cs (called c locks) f.1
      (called-Holds name owner expires c locks f.0 h)

owned : String → ℕ → ℕ → Lock → Lock
owned owner now expires l = record l { owner = owner; acquired_at = now; expires_at = expires }

upserted-owned :
    (owner : String) (now expires : ℕ) (new : Lock) (found : Option Lock)
    → new.owner ≡ owner
    → new.expires_at ≡ expires
    → ((upserted (owned owner now expires) new found).owner ≡ owner)
      × ((upserted (owned owner now expires) new found).expires_at ≡ expires)
unfolding owned
upserted-owned owner now expires new none e f = (e, f)
upserted-owned owner now expires new (some l) e f = (refl, refl)

taken-Holds :
    (name owner : String) (now expires : ℕ) (locks : List Lock)
    → Holds name owner expires (take_lock name owner now expires locks)
unfolding Holds owned
taken-Holds name owner now expires locks =
    let new : Lock = record {
      name = name;
      owner = owner;
      acquired_at = now;
      expires_at = expires;
    } in
    let both = upserted-owned owner now expires new (lock_named name locks) refl refl in
    (
      upserted (owned owner now expires) new (lock_named name locks),
      named-take_lock name owner name now expires locks ∙ rw (eq_refl name) refl,
      both.0,
      both.1,
    )

expected-Holds :
    (name owner : String) (now end expires : ℕ) (locks : List Lock)
    → Path LockResult (acquired end) (acquired expires)
    → Holds name owner expires (take_lock name owner now end locks)
expected-Holds name owner now end expires locks h =
    let same : end ≡ expires = cc in
    subst (λ x. Holds name owner x (take_lock name owner now end locks)) same
      (taken-Holds name owner now end locks)

never : (owner : String) (end expires : ℕ) → Path LockResult (held owner end) (acquired expires) → ⊥
never owner end expires h = cc

acquired-Holds :
    (name owner : String) (ttl now expires : ℕ) (found : Option Lock) (locks : List Lock)
    → (acquire_free name owner ttl now found locks).0 ≡ acquired expires
    → Holds name owner expires (acquire_free name owner ttl now found locks).1
unfolding acquire_free
acquired-Holds name owner ttl now expires none locks h =
    expected-Holds name owner now (now + ttl) expires locks h
acquired-Holds name owner ttl now expires (some l) locks h =
    elim (Bool-cases (is_held owner now (some l))) [
      | inl e ↦
          let answer : acquire_free name owner ttl now (some l) locks
              ≡ (held l.owner l.expires_at, locks) =
            rw (e, acquire_free) refl in
          let bad : held l.owner l.expires_at ≡ acquired expires =
            ap (λ (r : LockResult × List Lock). r.0) (sym answer) ∙ h in
          absurd (never l.owner l.expires_at expires bad)
      | inr e ↦
          let answer : acquire_free name owner ttl now (some l) locks
              ≡ (acquired (now + ttl), take_lock name owner now (now + ttl) locks) =
            rw (e, acquire_free) refl in
          subst (λ (r : LockResult × List Lock). Holds name owner expires r.1) (sym answer)
            (expected-Holds name owner now (now + ttl) expires locks
              (ap (λ (r : LockResult × List Lock). r.0) (sym answer) ∙ h))
    ]

started-Holds :
    (name owner : String) (ttl now expires : ℕ) (locks : List Lock)
    → (acquire_lock name owner ttl now locks).0 ≡ acquired expires
    → Holds name owner expires (acquire_lock name owner ttl now locks).1
unfolding acquire_lock
started-Holds name owner ttl now expires locks h =
    acquired-Holds name owner ttl now expires (lock_named name locks) locks h

-- A lock that an owner has taken excludes every other: whatever others do meanwhile with this lock
-- before it expires, and anyone with other locks, an attempt of another owner before it expires is
-- refused, is told the owner and the expiry, and changes nothing.
pub acquire_lock-excludes :
    (name owner other : String) (ttl now expires ttl' later : ℕ) (locks : List Lock)
    (cs : List Call)
    → (acquire_lock name owner ttl now locks).0 ≡ acquired expires
    → All (IsForeign name owner expires) cs
    → other ≢ owner
    → later < expires
    → acquire_lock name other ttl' later (all_called cs (acquire_lock name owner ttl now locks).1)
      ≡ (held owner expires, all_called cs (acquire_lock name owner ttl now locks).1)
acquire_lock-excludes name owner other ttl now expires ttl' later locks cs h foreign ne early =
    let first = (acquire_lock name owner ttl now locks).1 in
    held-acquire_lock name owner other expires ttl' later (all_called cs first)
      (all_called-Holds name owner expires cs first foreign
        (started-Holds name owner ttl now expires locks h))
      ne early
