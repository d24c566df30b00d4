-- ===== src/External/Redis/Memory.antt =====
-- Redis over an association list: a value that shows that the interface can be met.
use backend_core_platform.Container.JsMap
use backend_core_platform.Container.JsMap.{get-set, get-delete}
use backend_core_platform.External.Redis.{
  Counter, Redis, live, count_of, incremented, expiring, remaining_time,
}
use backend_core_platform.Base.{
  ℕ, ◌+◌, String, ◌≡◌, refl, inl, inr, Option, none, some, List, ◌==◌, Eq_ℕ, Eq_String,
  if◌then◌else◌, Bool-cases, Option-cases,
}

abbrev pub Entries : Type 0
Entries = List (String × Counter)

unfoldable pub entry : String → Entries → Option Counter
entry k s = JsMap.get k s

unfoldable pub incr : ℕ → String → Entries → Entries × ℕ
unfolding entry
incr now k s = let c = incremented (live now (entry k s)) in (JsMap.set k c s, c.count)

unfoldable pub pexpire : ℕ → String → ℕ → Entries → Entries
unfolding entry
pexpire now k ms s = elim (live now (entry k s)) [
  | none ↦ JsMap.delete k s
  | some c ↦
      let removed = JsMap.delete k s in
      let dated : Counter = record c { expires_at = some (now + ms) } in
      if ms == 0 then removed else JsMap.set k dated s
]

pub entry-incr :
    (now : ℕ) (k j : String) (s : Entries)
    → entry j (incr now k s).0
      ≡ (if k == j then some (incremented (live now (entry k s))) else entry j s)
unfolding incr
entry-incr now k j s = get-set j k (incremented (live now (JsMap.get k s))) s

pub count-incr :
    (now : ℕ) (k : String) (s : Entries)
    → (incr now k s).1 ≡ (incremented (live now (entry k s))).count
unfolding incr
count-incr now k s = refl

pub entry-pexpire :
    (now : ℕ) (k j : String) (ms : ℕ) (s : Entries)
    → entry j (pexpire now k ms s)
      ≡ (if k == j then expiring now ms (live now (entry k s)) else entry j s)
unfolding pexpire
entry-pexpire now k j ms s = elim (Option-cases (live now (JsMap.get k s))) [
  | inl gone ↦ rw (gone, pexpire) (get-delete j k s)
  | inr (c, held) ↦ elim (Bool-cases (ms == 0)) [
    | inl at_once ↦ rw (held, pexpire) (rw at_once (get-delete j k s))
    | inr later ↦
        let dated : Counter = record c { expires_at = some (now + ms) } in
        rw (held, pexpire) (rw later (get-set j k dated s))
  ]
]

pub entry-del :
    (k j : String) (s : Entries) → entry j (JsMap.delete k s) ≡ (if k == j then none else entry j s)
unfolding entry
entry-del k j s = get-delete j k s

abbrev pub memory : Redis
memory = record {
  Store = Entries;
  entry = entry;
  get = λ now k s. count_of (live now (entry k s));
  incr = incr;
  pexpire = pexpire;
  pttl = λ now k s. remaining_time now (live now (entry k s));
  del = λ k s. JsMap.delete k s;
  get_lem = λ now k s. refl;
  entry-incr = entry-incr;
  count-incr = count-incr;
  entry-pexpire = entry-pexpire;
  pttl_lem = λ now k s. refl;
  entry-del = entry-del;
}
