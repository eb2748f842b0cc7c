-- ===== src/Dnsmasq/Cache/Lru.antt =====
-- The list of entries in src/cache.c of http1.0/src/dnsmasq/dnsmasq-2.45, with its pointers: an entry
-- is a number, and `none` is a null pointer.
pub mod Seg
pub mod Laws
use mydns.Prelude.{ℕ, Option, none, some, ◌==◌, if◌then◌else◌}

-- The fields `next` and `prev` of every entry, `cache_head` and `cache_tail`.
pub record Lru : Type 0 where
  pub next : ℕ → Option ℕ
  pub prev : ℕ → Option ℕ
  pub head : Option ℕ
  pub tail : Option ℕ

-- A field of entry `i` set.
unfoldable pub update : (ℕ → Option ℕ) → ℕ → Option ℕ → ℕ → Option ℕ
update field i v j = if j == i then v else field j

-- `if (p) p->field = v`
abbrev pub update_at : (ℕ → Option ℕ) → Option ℕ → Option ℕ → ℕ → Option ℕ
update_at field none v = field
update_at field (some i) v = update field i v

abbrev pub or_else : Option ℕ → Option ℕ → Option ℕ
or_else none o = o
or_else (some i) o = some i

-- `cache_link`
unfoldable pub cache_link : ℕ → Lru → Lru
cache_link crecp l = record {
  next = update l.next crecp l.head;
  prev = update (update_at l.prev l.head (some crecp)) crecp none;
  head = some crecp;
  tail = or_else l.tail (some crecp);
}

-- The first test of `cache_unlink`, and the second.
abbrev pub unlink_prev : ℕ → Option ℕ → Lru → Lru
unlink_prev crecp none l = record l { head = l.next crecp }
unlink_prev crecp (some p) l = record l { next = update l.next p (l.next crecp) }

abbrev pub unlink_next : ℕ → Option ℕ → Lru → Lru
unlink_next crecp none l = record l { tail = l.prev crecp }
unlink_next crecp (some n) l = record l { prev = update l.prev n (l.prev crecp) }

-- `cache_unlink`
unfoldable pub cache_unlink : ℕ → Lru → Lru
cache_unlink crecp l =
    let first = unlink_prev crecp (l.prev crecp) l in unlink_next crecp (first.next crecp) first

abbrev pub append_head : ℕ → Option ℕ → Lru → Lru
append_head crecp none l = record l { head = some crecp }
append_head crecp (some t) l = record l { next = update l.next t (some crecp) }

-- The part of `cache_free` that appends the entry to the list.
unfoldable pub append_tail : ℕ → Lru → Lru
append_tail crecp l =
    let first = append_head crecp l.tail l in
    record {
      next = update first.next crecp none;
      prev = update first.prev crecp l.tail;
      head = first.head;
      tail = some crecp;
    }
