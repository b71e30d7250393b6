-- ===== src/Store/Log/Append.antt =====
-- What `append_events` keeps and adds.
use mathlib.Core.List.{append-nil}
use analytics.Common.{
  ℕ, suc, ◌+◌, ◌-◌, ◌%◌, ◌^◌, ◌<◌, ◌≤◌, ◌≡◌, refl, sym, ◌∙◌, ℤ, subst, pos_part, Bool-cases, none,
  some, Option-cases, List, [], ◌∷◌, length, arith, text_eq, text_eq_iff, text_eq_refl, inl, inr,
  All,
}
use analytics.Platform.{Bytes, Platform}
use analytics.Store.Keys.{be_bytes, event_key, u64_from_be}
use analytics.Store.Keys.Order.{text_eq-event_key, u64_from_be-be_bytes}
use analytics.Store.Event.{StoredEvent}
use analytics.Store.Db.{Error, Result, ok, err, Json, Store, read_next_seq, meta_next_seq}
use analytics.Store.Log.{next, stamp, append_loop, append_events, commit_append}

-- A receive time in the range of `i64`.
abbrev pub IsTime : StoredEvent → Type 0
IsTime e = pos_part e.received_ms < 2 ^ 63

-- Equal keys have equal numbers.
pub eq_of_event_key :
    (m n : ℤ) (s t : ℕ)
    → pos_part m < 2 ^ 63
    → pos_part n < 2 ^ 63
    → s < 2 ^ 64
    → t < 2 ^ 64
    → event_key m s ≡ event_key n t
    → s ≡ t
eq_of_event_key m n s t hm hn hs ht e = ground (
  arith,
  text_eq-event_key m n s t (omega arith) (omega arith) hs ht,
  (text_eq_iff (event_key m s) (event_key n t)).1 e,
)

u64_from_be-be_bytes_alone : (n : ℕ) → n < 2 ^ 64 → u64_from_be (be_bytes 8 n) ≡ n
u64_from_be-be_bytes_alone n h = rw append-nil at (u64_from_be-be_bytes n [] h)

module _ (P : Platform) (J : Json P) where
  -- The entry under a key is an event whose key this is and whose number is below `n`.
  pub record EntryBelow (n : ℕ) (k : List ℕ) (b : Bytes) : Type 0 where
    pub event : StoredEvent
    pub decoded : J.event.decode b ≡ some event
    pub key : k ≡ event_key event.received_ms event.seq
    pub seq_lt : event.seq < n
    pub is_time : IsTime event

  abbrev pub IsBelow : ℕ → P.Table → Type 0
  IsBelow n t = (k : List ℕ) (b : Bytes) → P.get t k ≡ some b → EntryBelow n k b

  -- Every number in use is below the persisted counter, which the counter in memory has passed.
  pub record IsWellFormed (s : Store P) : Type 0 where
    pub entries : IsBelow (read_next_seq P s.db) s.db.events
    pub persisted : read_next_seq P s.db ≤ s.next_seq
    pub in_range : s.next_seq < 2 ^ 64

  EntryBelow-mono : (m n : ℕ) (k : List ℕ) (b : Bytes) → m ≤ n → EntryBelow m k b → EntryBelow n k b
  EntryBelow-mono m n k b h e = record {
    event = e.event;
    decoded = e.decoded;
    key = e.key;
    seq_lt = omega (arith, e.seq_lt);
    is_time = e.is_time;
  }

  -- A key whose number is not below `n` is not in the table.
  fresh :
      (n : ℕ) (t : P.Table) (ms : ℤ)
      → pos_part ms < 2 ^ 63
      → n < 2 ^ 64
      → IsBelow n t
      → P.get t (event_key ms n) ≡ none
  fresh n t ms ht hn h = elim (Option-cases (P.get t (event_key ms n))) [
    | inl e ↦ e
    | inr (b, e) ↦
        let x = h (event_key ms n) b e in
        let same =
          eq_of_event_key ms x.event.received_ms n x.event.seq ht x.is_time hn
            (omega (arith, x.seq_lt)) x.key in
        absurd (omega (arith, x.seq_lt))
  ]

  IsBelow-mono : (m n : ℕ) (t : P.Table) → m ≤ n → IsBelow m t → IsBelow n t
  IsBelow-mono m n t h below k b e = EntryBelow-mono m n k b h (below k b e)

  -- One more event below the next number.
  IsBelow-insert :
      (n : ℕ) (t : P.Table) (e : StoredEvent) (b : Bytes)
      → IsTime e
      → J.event.encode (stamp e n) ≡ some b
      → IsBelow n t
      → IsBelow (suc n) (P.insert (event_key e.received_ms n) b t)
  IsBelow-insert n t e b ht enc below k c g =
      let law = P.get-insert (event_key e.received_ms n) k b t in
      elim (Bool-cases (text_eq (event_key e.received_ms n) k)) [
        | inl same ↦
            let c_is : b ≡ c = ground (arith, law) in
            record {
              event = stamp e n;
              decoded = rw (← c_is) (J.event.decode-encode (stamp e n) b enc);
              key = sym ((text_eq_iff _ k).0 same);
              seq_lt = omega arith;
              is_time = ht;
            }
        | inr other ↦ EntryBelow-mono n (suc n) k c (omega arith) (below k c (ground (arith, law)))
      ]

  -- From number `n` on, each event lies under its own key, stamped with its number.
  abbrev pub Stored : P.Table → ℕ → List StoredEvent → Type 0
  Stored t n [] = Unit
  Stored t n (e ∷ es) =
      (P.get t (event_key e.received_ms n) ≡ J.event.encode (stamp e n)) × Stored t (suc n) es

  -- No entry of `t` is lost or overwritten in `u`.
  abbrev pub Keeps : P.Table → P.Table → Type 0
  Keeps t u = (k : List ℕ) (b : Bytes) → P.get t k ≡ some b → P.get u k ≡ some b

  pub record Appended (es : List StoredEvent) (t : P.Table) (n : ℕ) (u : P.Table) (m : ℕ)
      : Type 0 where
    pub count : m ≡ n + length es
    pub below : IsBelow m u
    pub kept : Keeps t u
    pub stored : Stored u n es

  abbrev LoopPost : List StoredEvent → P.Table → ℕ → Result P.Table × ℕ → Type 0
  LoopPost es t n (ok u, m) = Appended es t n u m
  LoopPost es t n (err e, m) = (n ≤ m) × (m ≤ n + length es)

  -- A fresh key keeps the old entries.
  Keeps-insert :
      (n : ℕ) (t : P.Table) (e : StoredEvent) (b : Bytes)
      → IsTime e
      → n < 2 ^ 64
      → IsBelow n t
      → Keeps t (P.insert (event_key e.received_ms n) b t)
  Keeps-insert n t e b ht hn below k c g = ground (
    arith,
    P.get-insert (event_key e.received_ms n) k b t,
    fresh n t e.received_ms ht hn below,
    text_eq_iff (event_key e.received_ms n) k,
  )

  LoopPost-cons :
      (e : StoredEvent) (es : List StoredEvent) (t : P.Table) (n : ℕ) (b : Bytes)
      (r : Result P.Table × ℕ)
      → IsTime e
      → n < 2 ^ 64
      → IsBelow n t
      → J.event.encode (stamp e n) ≡ some b
      → LoopPost es (P.insert (event_key e.received_ms n) b t) (suc n) r
      → LoopPost (e ∷ es) t n r
  LoopPost-cons e es t n b (ok u, m) ht hn below enc post = record {
    count = omega (arith, post.count);
    below = post.below;
    kept = λ k c g. post.kept k c (Keeps-insert n t e b ht hn below k c g);
    stored = (
      post.kept (event_key e.received_ms n) b (
            ground (
              arith,
              P.get-insert (event_key e.received_ms n) (event_key e.received_ms n) b t,
              text_eq_refl (event_key e.received_ms n),
            ))
          ∙ sym enc,
      post.stored,
    );
  }
  LoopPost-cons e es t n b (err x, m) ht hn below enc post = omega arith

  append_loop-some :
      (e : StoredEvent) (es : List StoredEvent) (t : P.Table) (n : ℕ) (b : Bytes)
      → n < 2 ^ 64 - 1
      → J.event.encode (stamp e n) ≡ some b
      → append_loop P J (e ∷ es) t n
        ≡ append_loop P J es (P.insert (event_key e.received_ms n) b t) (suc n)
  unfolding append_loop
  append_loop-some e es t n b small enc =
      let no_wrap : (n + 1) % 2 ^ 64 ≡ suc n = omega arith in ground arith

  append_loop-none :
      (e : StoredEvent) (es : List StoredEvent) (t : P.Table) (n : ℕ)
      → J.event.encode (stamp e n) ≡ none
      → append_loop P J (e ∷ es) t n ≡ (err Error.storage, next n)
  unfolding append_loop
  append_loop-none e es t n enc = ground arith

  append_loop-LoopPost :
      (es : List StoredEvent) (t : P.Table) (n : ℕ)
      → All IsTime es
      → n + length es < 2 ^ 64
      → IsBelow n t
      → LoopPost es t n (append_loop P J es t n)
  append_loop-LoopPost [] t n ht room below =
      unfold append_loop in
      record { count = omega arith; below = below; kept = λ k b g. g; stored = tt }
  append_loop-LoopPost (e ∷ es) t n ht room below =
      elim (Option-cases (J.event.encode (stamp e n))) [
        | inl bad ↦
            subst (LoopPost (e ∷ es) t n) (sym (append_loop-none e es t n bad))
              (let no_wrap : (n + 1) % 2 ^ 64 ≡ suc n = omega arith in (omega arith, omega arith))
        | inr (b, good) ↦
            subst (LoopPost (e ∷ es) t n) (sym (append_loop-some e es t n b (omega arith) good)) (
              LoopPost-cons e es t n b _ ht.0 (omega arith) below good (
                append_loop-LoopPost es (P.insert (event_key e.received_ms n) b t) (suc n) ht.1
                  (omega arith) (IsBelow-insert n t e b ht.0 good below)))
      ]

  -- What one call of `append_events` promises: on success the counter has advanced by the number
  -- of events, each event lies under its own key, stamped with its number, and no entry is lost or
  -- overwritten; on an error the database is as it was. Either way the store stays well-formed.
  pub record AppendPost (es : List StoredEvent) (s s' : Store P) (r : Result (Unit {0}))
      : Type 0 where
    pub well_formed : IsWellFormed s'
    pub kept : Keeps s.db.events s'.db.events
    pub on_ok :
        r ≡ ok tt → (s'.next_seq ≡ s.next_seq + length es) × Stored s'.db.events s.next_seq es
    pub on_err : (e : Error) → r ≡ err e → s'.db ≡ s.db

  read_next_seq-commit :
      (s : Store P) (t : P.Table) (n : ℕ)
      → n < 2 ^ 64
      → read_next_seq P (commit_append P J s (ok t, n)).1.db ≡ n
  unfolding read_next_seq
  read_next_seq-commit s t n h =
      let found : P.get (P.insert meta_next_seq (be_bytes 8 n) s.db.meta) meta_next_seq
          ≡ some (be_bytes 8 n) =
        ground (
          arith,
          P.get-insert meta_next_seq meta_next_seq (be_bytes 8 n) s.db.meta,
          text_eq_refl meta_next_seq,
        ) in
      ground (arith, found, u64_from_be-be_bytes_alone n h)

  commit-AppendPost :
      (es : List StoredEvent) (s : Store P) (r : Result P.Table × ℕ)
      → s.next_seq + length es < 2 ^ 64
      → IsWellFormed s
      → LoopPost es s.db.events s.next_seq r
      → AppendPost es s (commit_append P J s r).1 (commit_append P J s r).0
  commit-AppendPost es s (ok t, n) room wf post =
      let counter = read_next_seq-commit s t n (omega (arith, post.count)) in
      record {
        well_formed = record {
          entries = rw counter post.below;
          persisted = rw counter (omega arith);
          in_range = omega (arith, post.count);
        };
        kept = post.kept;
        on_ok = λ _. (post.count, post.stored);
        on_err = λ e h. cc;
      }
  commit-AppendPost es s (err x, n) room wf post = record {
    well_formed = record {
      entries = wf.entries;
      persisted = omega (arith, wf.persisted);
      in_range = omega arith;
    };
    kept = λ k b g. g;
    on_ok = λ h. cc;
    on_err = λ e h. refl;
  }

  -- For events whose receive times fit i64, a well-formed store and room for their numbers below
  -- 2^64, the store stays well-formed. On success the counter has advanced by the number of events,
  -- each event lies under its own key stamped with its number, and no entry is lost or overwritten;
  -- on an error the database is as it was.
  pub append_events-AppendPost :
      (es : List StoredEvent) (s : Store P)
      → All IsTime es
      → s.next_seq + length es < 2 ^ 64
      → IsWellFormed s
      → AppendPost es s (append_events P J es s).1 (append_events P J es s).0
  append_events-AppendPost [] s ht room wf =
      unfold append_events in
      record {
        well_formed = wf;
        kept = λ k b g. g;
        on_ok = λ _. (omega arith, tt);
        on_err = λ e h. cc;
      }
  append_events-AppendPost (e ∷ es) s ht room wf =
      unfold append_events in
      commit-AppendPost (e ∷ es) s _ room wf (
        append_loop-LoopPost (e ∷ es) s.db.events s.next_seq ht room
          (IsBelow-mono _ s.next_seq s.db.events wf.persisted wf.entries))
