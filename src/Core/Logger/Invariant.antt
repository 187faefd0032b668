-- ===== src/Core/Logger/Invariant.antt =====
-- logger.cpp: what holds of the ring between any two steps, and the slots of its positions.
use native.Mathlib.Decide.{dec_lt}
use native.Mathlib.Nat.{mod-eq_of_lt}
use trading_bot_v.Prelude.{
  ℕ, suc, ◌+◌, ◌-◌, ◌^◌, ◌%◌, ◌<◌, ◌≤◌, ◌≡◌, ◌≢◌, ◌∙◌, sym, ap, subst, Option, none, some, List,
  map, take, length, get_elem?, String, ◌==◌, update, update_self, update-ne, Bool-cases, inl, inr,
  if-elim, ==→eq, ==_ne, arith,
}
use trading_bot_v.Util.SpscQueue.{slot}
use trading_bot_v.Util.SpscQueue.Index.{mod_apart, slot-mod}
use trading_bot_v.Core.Logger.{
  Drainer, Line, LogLevel, Logger, Printed, Record, Writer, level_name, max_line, ring_size,
  until_nul,
}

-- a line as the record holds it, and as it is printed
abbrev pub stored : Line → LogLevel × List ℕ
stored line = (line.level, take (max_line - 1) line.text)

abbrev pub record_line : Record → LogLevel × List ℕ
record_line r = (r.level, r.text)

abbrev pub shown : LogLevel × List ℕ → String × List ℕ
shown l = (level_name l.0, until_nul l.1)

abbrev pub said : Printed → String × List ℕ
said p = (p.level, p.text)

-- the position that a thread has claimed and not stamped
abbrev pub owned : Writer → Option ℕ
owned (Writer.claimed line h) = some h
owned (Writer.written line h) = some h
owned _ = none

-- The slot of a position holds the line that claimed it.
pub record Holds (records : ℕ → Record) (claims : List Line) (p : ℕ) : Type 0 where
  pub line : Line
  pub claim : get_elem? claims p ≡ some line
  pub held : record_line (records (slot ring_size p)) ≡ stored line

-- a position that `line` has claimed, with `e` lines printed
pub record Owns (ready : ℕ → ℕ) (claims : List Line) (e : ℕ) (line : Line) (h : ℕ) : Type 0 where
  pub claim : get_elem? claims h ≡ some line
  pub unprinted : e ≤ h
  pub below : h < length claims
  pub unstamped : ready (slot ring_size h) ≢ suc h

abbrev pub AtWriter : ℕ → (ℕ → ℕ) → (ℕ → Record) → List Line → ℕ → Writer → Type 0
AtWriter tail ready records claims e Writer.idle = Unit {0}
AtWriter tail ready records claims e (Writer.loaded line h) = h ≤ length claims
AtWriter tail ready records claims e (Writer.checked line h) =
    (h ≤ length claims) × (h < tail + ring_size)
AtWriter tail ready records claims e (Writer.claimed line h) = Owns ready claims e line h
AtWriter tail ready records claims e (Writer.written line h) =
    Owns ready claims e line h × (record_line (records (slot ring_size h)) ≡ stored line)

-- No thread has claimed the position without stamping it.
abbrev pub Free : (ℕ → Writer) → ℕ → Type 0
Free writers p = (i : ℕ) → owned (writers i) ≢ some p

abbrev pub AtDrainer : ℕ → List Line → (ℕ → Writer) → ℕ → Drainer → Type 0
AtDrainer tail claims writers e Drainer.waiting = tail ≡ e
AtDrainer tail claims writers e Drainer.empty = tail ≡ e
AtDrainer tail claims writers e Drainer.ended = tail ≡ e
AtDrainer tail claims writers e (Drainer.scanning h t) = (t ≡ e) × (h ≤ length claims)
AtDrainer tail claims writers e (Drainer.storing t) = t ≡ e
AtDrainer tail claims writers e (Drainer.found h t) =
    (t ≡ e) × (h ≤ length claims) × (t < length claims) × Free writers t

pub record IsLogged (s : Logger) : Type 0 where
  pub head_is : s.ring.head ≡ length s.claims
  pub tail_le : s.ring.tail ≤ length s.printed
  pub printed_le : length s.printed ≤ length s.claims
  pub room : length s.claims ≤ s.ring.tail + ring_size
  pub lines : map said s.printed ≡ map (λ l. shown (stored l)) (take (length s.printed) s.claims)
  pub stamps : (j : ℕ) → s.ring.ready j ≤ length s.claims
  pub at_writers :
      (i : ℕ)
      → AtWriter s.ring.tail s.ring.ready s.ring.records s.claims (length s.printed) (s.writers i)
  pub distinct : (i j p : ℕ) → owned (s.writers i) ≡ some p → owned (s.writers j) ≡ some p → i ≡ j
  pub covered :
      (p : ℕ)
      → length s.printed ≤ p
      → p < length s.claims
      → Free s.writers p
      → Holds s.ring.records s.claims p
  pub at_drainer : AtDrainer s.ring.tail s.claims s.writers (length s.printed) s.drainer

-- Positions less than a ring apart have different slots.
slot_lem : (p : ℕ) → p < 2 ^ 63 → slot ring_size p ≡ p % ring_size
slot_lem p h = ap (slot ring_size) (sym (mod-eq_of_lt (omega arith))) ∙ slot-mod 12 p (omega arith)

pub slot_apart :
    (p q t : ℕ)
    → t ≤ p
    → t ≤ q
    → p < t + ring_size
    → q < t + ring_size
    → p < 2 ^ 63
    → q < 2 ^ 63
    → p ≢ q
    → slot ring_size p ≢ slot ring_size q
slot_apart p q t a b c d small small' ne e = elim (dec_lt p q) [
  | yes h ↦ mod_apart ring_size p q h (omega arith) same
  | no h ↦ mod_apart ring_size q p (omega arith) (omega arith) (sym same)
]
  where
    same : p % ring_size ≡ q % ring_size
    same = sym (slot_lem p small) ∙ e ∙ slot_lem q small'

-- A new state of one thread, and the state of each.
pub update_all :
    (P : Writer → Type 0) (f : ℕ → Writer) (i : ℕ) (w : Writer)
    → P w
    → ((j : ℕ) → P (f j))
    → (j : ℕ) → P (update f i w j)
update_all P f i w new old j = if-elim P (i == j) new (old j)

pub Free-update :
    (f : ℕ → Writer) (i : ℕ) (w : Writer) (p : ℕ)
    → (owned (f i) ≡ some p → owned w ≡ some p)
    → Free (update f i w) p
    → Free f p
Free-update f i w p same free k = elim (Bool-cases (i == k)) [
  | inl e ↦
      λ q. free i (ap owned (update_self f i w) ∙ same (ap (λ j. owned (f j)) (==→eq i k e) ∙ q))
  | inr e ↦ λ q. free k (ap owned (update-ne f i k w (==_ne i k e)) ∙ q)
]

pub same_some : {a b : ℕ} → some a ≡ some b → a ≡ b
same_some e = cc

module _ (tail : ℕ) (ready : ℕ → ℕ) (records : ℕ → Record) (claims : List Line) (e : ℕ) where
  -- What a thread that owns a position knows of it.
  pub owner-Owns :
      (w : Writer) (p : ℕ)
      → AtWriter tail ready records claims e w
      → owned w ≡ some p
      → (line : Line) × Owns ready claims e line p
  owner-Owns Writer.idle p at same = cc
  owner-Owns (Writer.loaded line h) p at same = cc
  owner-Owns (Writer.checked line h) p at same = cc
  owner-Owns (Writer.claimed line h) p at same =
      (line, subst (Owns ready claims e line) (same_some same) at)
  owner-Owns (Writer.written line h) p at same =
      (line, subst (Owns ready claims e line) (same_some same) at.0)
