-- ===== src/Drift/Cron/Tracked.antt =====
-- What the manager's map of entries says of the scheduler's entries.
use capyclaw.Prelude.{
  String, String_eq, ◌==◌, ◌≡◌, ◌∙◌, arith, Bool, true, false, some, Map, lookup, insert, delete,
  lookup-insert, lookup-delete, if◌then◌else◌,
}
use capyclaw.Action.{Result, ok}

abbrev pub added : Result String → (String → Bool) → String → Bool
added (ok entry) before e = if entry == e then true else before e
added _ before e = before e

abbrev pub removed : String → Result (Unit {0}) → (String → Bool) → String → Bool
removed entry (ok _) before e = if entry == e then false else before e
removed entry _ before e = before e

-- every job's entry is one of the scheduler's, and no two jobs have the same
pub record Tracked (has : String → Bool) (ids : Map String String) : Type 0 where
  pub there : (job e : String) → lookup job ids ≡ some e → has e ≡ true
  pub apart :
      (job other e : String) → lookup job ids ≡ some e → lookup other ids ≡ some e → job ≡ other

pub Tracked-insert :
    (has has' : String → Bool) (ids : Map String String) (job entry : String)
    → has entry ≡ false
    → ((e : String) → has' e ≡ (if entry == e then true else has e))
    → Tracked has ids
    → Tracked has' (insert job entry ids)
Tracked-insert has has' ids job entry new after t = record {
  there = λ j e h. ground (
    arith,
    after e,
    t.there j e,
    lookup-insert job j entry ids,
    h,
    String_eq.same_iff job j,
    String_eq.same_iff entry e,
  );
  apart = λ j k e h h'. ground (
    arith,
    t.there j e,
    t.there k e,
    t.apart j k e,
    new,
    lookup-insert job j entry ids,
    lookup-insert job k entry ids,
    h,
    h',
    String_eq.same_iff job j,
    String_eq.same_iff job k,
    String_eq.same_iff entry e,
  );
}

pub Tracked-delete :
    (has has' : String → Bool) (ids : Map String String) (job entry : String)
    → lookup job ids ≡ some entry
    → ((e : String) → has' e ≡ (if entry == e then false else has e))
    → Tracked has ids
    → Tracked has' (delete job ids)
Tracked-delete has has' ids job entry found after t = record {
  there = λ j e h. ground (
    arith,
    after e,
    t.there j e,
    t.apart job j entry found,
    lookup-delete job j ids,
    found,
    h,
    String_eq.same_iff job j,
    String_eq.same_iff entry e,
  );
  apart = λ j k e h h'. ground (
    arith,
    t.apart j k e,
    lookup-delete job j ids,
    lookup-delete job k ids,
    h,
    h',
    String_eq.same_iff job j,
    String_eq.same_iff job k,
  );
}

pub Tracked-same :
    (has has' : String → Bool) (ids : Map String String)
    → ((e : String) → has' e ≡ has e)
    → Tracked has ids
    → Tracked has' ids
Tracked-same has has' ids same t = record {
  there = λ j e h. same e ∙ t.there j e h;
  apart = t.apart;
}
