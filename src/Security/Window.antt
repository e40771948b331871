-- ===== src/Security/Window.antt =====
-- What the limit on requests promises, whatever the buckets forget.
use cax_commerce_operations.Prelude.{
  ℕ, ◌+◌, ◌≤◌, ◌<◌, ◌≡◌, refl, String, Bool, true, false, not, ◌&&◌, List, [], ◌∷◌, ◌++◌, ◌==◌,
  Eq-nat, Eq-string, inl, inr, arith, All, All-append, ap, sym, ◌∙◌, filter, leb, ltb, length,
  eq_self, Bool-cases, if◌then◌else◌,
}
use cax_commerce_operations.Security.{Settings, Buckets, expire, write_bucket, within_limit}

-- A call: its key and its time.
abbrev pub Call : Type 0
Call = String × ℕ

-- The answers of the limiter to a sequence of calls.
unfoldable pub answers : Settings → List Call → Buckets → List Bool
answers settings [] requests = []
answers settings (c ∷ cs) requests =
    let (free, after) = within_limit settings c.0 c.1 requests in free ∷ answers settings cs after

-- The reference: nothing is forgotten, and a call passes if fewer than `rate_limit_requests` of the
-- calls that passed have its key and are less than a window old.
abbrev pub is_recent : ℕ → Call → Call → Bool
is_recent window c e = e.0 == c.0 && ltb c.1 (e.1 + window)

abbrev pub passes : Settings → List Call → Call → Bool
passes settings log c =
    ltb (length (filter (is_recent settings.rate_limit_window_seconds c) log))
      settings.rate_limit_requests

unfoldable pub reference : Settings → List Call → List Call → List Bool
reference settings log [] = []
reference settings log (c ∷ cs) =
    let free = passes settings log c in
    free ∷ reference settings (if free then log ++ c ∷ [] else log) cs

-- The calls come in the order of their times.
abbrev pub InOrder : ℕ → List Call → Type 0
InOrder now [] = Unit
InOrder now (c ∷ cs) = (now ≤ c.1) × InOrder c.1 cs

-- The times of the calls in a log that have the key `k` and are recent at `now`.
unfoldable times : ℕ → String → ℕ → List Call → List ℕ
times window k now [] = []
times window k now (e ∷ log) =
    let rest = times window k now log in
    if e.0 == k && ltb now (e.1 + window) then e.1 ∷ rest else rest

length-times :
    (window : ℕ) (k : String) (now : ℕ) (log : List Call)
    → length (times window k now log) ≡ length (filter (is_recent window (k, now)) log)
unfolding times
length-times window k now [] = refl
length-times window k now (e ∷ log) = ground (arith, length-times window k now log)

times-append :
    (window : ℕ) (k : String) (now : ℕ) (log : List Call) (c : Call)
    → times window k now (log ++ c ∷ [])
      ≡ times window k now log ++ (if c.0 == k && ltb now (c.1 + window) then c.1 ∷ [] else [])
unfolding times
times-append window k now [] c = ground arith
times-append window k now (e ∷ log) c = ground (arith, times-append window k now log c)

-- Expiring twice is expiring once, at the later time.
expire-expire :
    (window now later : ℕ) (ts : List ℕ)
    → now ≤ later
    → expire window later (expire window now ts) ≡ expire window later ts
unfolding expire
expire-expire window now later [] h = refl
expire-expire window now later (t ∷ ts) h = ground (arith, expire-expire window now later ts)

-- A new last request, no earlier than the others, expires after them.
expire-append :
    (window now later : ℕ) (ts : List ℕ)
    → All (λ t. t ≤ now) ts
    → expire window later (ts ++ now ∷ [])
      ≡ expire window later ts ++ (if leb (now + window) later then [] else now ∷ [])
unfolding expire
expire-append window now later [] h = ground arith
expire-append window now later (t ∷ ts) h = ground (arith, expire-append window now later ts, h)

-- Every bucket holds times no later than the present, and holds, from now on, the recent ones of
-- the log.
record Follows (window now : ℕ) (log : List Call) (requests : Buckets) : Type 0 where
  past : (k : String) → All (λ t. t ≤ now) (requests k)
  recent :
      (k : String) (later : ℕ)
      → now ≤ later
      → expire window later (requests k) ≡ times window k later log

All-weaken :
    (now later : ℕ) (ts : List ℕ) → now ≤ later → All (λ t. t ≤ now) ts → All (λ t. t ≤ later) ts
All-weaken now later [] h all = tt
All-weaken now later (t ∷ ts) h all = (omega (arith, h, all.0), All-weaken now later ts h all.1)

All-expire :
    (P : ℕ → Type 0) (window now : ℕ) (ts : List ℕ) → All P ts → All P (expire window now ts)
unfolding expire
All-expire P window now [] all = tt
All-expire P window now (t ∷ ts) all = elim (Bool-cases (leb (t + window) now)) [
  | inl old ↦ rw old (All-expire P window now ts all.1)
  | inr fresh ↦ rw fresh all
]

refused-Follows :
    (window now : ℕ) (log : List Call) (requests : Buckets) (key : String) (t : ℕ)
    → Follows window now log requests
    → now ≤ t
    → Follows window t log (write_bucket key (expire window t (requests key)) requests)
refused-Follows window now log requests key t f le = record {
  past = λ k. elim (Bool-cases (k == key)) [
    | inl same ↦ rw same (
        All-expire (λ u. u ≤ t) window t (requests key)
          (All-weaken now t (requests key) le (f.past key)))
    | inr other ↦ rw other (All-weaken now t (requests k) le (f.past k))
  ];
  recent = λ k later after. elim (Bool-cases (k == key)) [
    | inl same ↦
        let is_key : k ≡ key = (Eq-string.beq_iff k key).0 same in
        rw same (
          expire-expire window t later (requests key) after
          ∙ f.recent key later (omega (arith, le, after))
          ∙ ap (λ x. times window x later log) (sym is_key))
    | inr other ↦ rw other (f.recent k later (omega (arith, le, after)))
  ];
}

-- The new request at the end of its bucket, and in the log.
new_recent :
    (window later : ℕ) (log : List Call) (k key : String) (t : ℕ)
    → k ≡ key
    → times window key later log ++ (if leb (t + window) later then [] else t ∷ [])
      ≡ times window k later (log ++ (key, t) ∷ [])
new_recent window later log k key t same =
    rw same (ground (arith, times-append window key later log (key, t), eq_self key))

other_recent :
    (window later : ℕ) (log : List Call) (k key : String) (t : ℕ)
    → (key == k) ≡ false
    → times window k later log ≡ times window k later (log ++ (key, t) ∷ [])
unfolding times
other_recent window later [] k key t h = ground (arith, h)
other_recent window later (e ∷ log) k key t h =
    ground (arith, h, other_recent window later log k key t)

differs_sym : (k key : String) → (k == key) ≡ false → (key == k) ≡ false
differs_sym k key h =
    ground (arith, h, Eq-string.beq_iff k key, Eq-string.beq_iff key k, sym {a = k} {b = key})

passed-Follows :
    (window now : ℕ) (log : List Call) (requests : Buckets) (key : String) (t : ℕ)
    → Follows window now log requests
    → now ≤ t
    → Follows window t
        (log ++ (key, t) ∷ [])
        (write_bucket key (expire window t (requests key) ++ t ∷ []) requests)
passed-Follows window now log requests key t f le = record {
  past = λ k. elim (Bool-cases (k == key)) [
    | inl same ↦ rw same (
        All-append (λ u. u ≤ t) (expire window t (requests key)) (t ∷ [])
          (All-expire (λ u. u ≤ t) window t (requests key)
            (All-weaken now t (requests key) le (f.past key)))
          (omega arith, tt))
    | inr other ↦ rw other (All-weaken now t (requests k) le (f.past k))
  ];
  recent = λ k later after. elim (Bool-cases (k == key)) [
    | inl same ↦
        let is_key : k ≡ key = (Eq-string.beq_iff k key).0 same in
        let kept =
          All-expire (λ u. u ≤ t) window t (requests key)
            (All-weaken now t (requests key) le (f.past key)) in
        rw same (
          expire-append window t later (expire window t (requests key)) kept
          ∙ ap (λ x. x ++ (if leb (t + window) later then [] else t ∷ []))
              (expire-expire window t later (requests key) after
                ∙ f.recent key later (omega (arith, le, after)))
          ∙ new_recent window later log k key t is_key)
    | inr other ↦ rw other (
        f.recent k later (omega (arith, le, after))
        ∙ other_recent window later log k key t (differs_sym k key other))
  ];
}

-- What a call finds in its bucket is what the reference counts.
counted :
    (settings : Settings) (now : ℕ) (log : List Call) (requests : Buckets) (c : Call)
    → Follows settings.rate_limit_window_seconds now log requests
    → now ≤ c.1
    → passes settings log c
      ≡ not (
          leb settings.rate_limit_requests
            (length (expire settings.rate_limit_window_seconds c.1 (requests c.0))))
counted settings now log requests (key, t) f le =
    let window = settings.rate_limit_window_seconds in
    ground (arith, ap length (f.recent key t le), length-times window key t log)

following :
    (settings : Settings) (now : ℕ) (log cs : List Call) (requests : Buckets)
    → Follows settings.rate_limit_window_seconds now log requests
    → InOrder now cs
    → answers settings cs requests ≡ reference settings log cs
unfolding answers reference within_limit
following settings now log [] requests f order = refl
following settings now log (c ∷ cs) requests f order =
    let window = settings.rate_limit_window_seconds in
    let bucket = expire window c.1 (requests c.0) in
    let same = counted settings now log requests c f order.0 in
    elim (Bool-cases (leb settings.rate_limit_requests (length bucket))) [
      | inl full ↦
          let rest =
            following settings c.1 log cs (write_bucket c.0 bucket requests)
              (refused-Follows window now log requests c.0 c.1 f order.0) order.1 in
          rw (full, same, full) (ap (λ x. false ∷ x) rest)
      | inr free ↦
          let rest =
            following settings c.1 (log ++ c ∷ []) cs
              (write_bucket c.0 (bucket ++ c.1 ∷ []) requests)
              (passed-Follows window now log requests c.0 c.1 f order.0) order.1 in
          rw (free, same, free) (ap (λ x. true ∷ x) rest)
    ]

-- The limiter, which takes old requests out of its buckets, answers every sequence of calls, of any
-- keys, as the reference does, which counts the calls that passed and forgets none. The calls come
-- in the order of their times, and the buckets are empty at first.
pub limiter_exact :
    (settings : Settings) (cs : List Call)
    → InOrder 0 cs
    → answers settings cs (λ k. []) ≡ reference settings [] cs
unfolding expire times
limiter_exact settings cs order =
    following settings 0 [] cs (λ k. []) (record { past = λ k. tt; recent = λ k later after. refl })
      order

-- The calls that an answer of `true` let through.
unfoldable pub passed : List Call → List Bool → List Call
passed [] bs = []
passed (c ∷ cs) [] = []
passed (c ∷ cs) (true ∷ bs) = c ∷ passed cs bs
passed (c ∷ cs) (false ∷ bs) = passed cs bs

-- The number of calls with the key `k` in the window that begins at `from`.
unfoldable pub in_window : ℕ → String → ℕ → List Call → ℕ
in_window window k from [] = 0
in_window window k from (e ∷ es) =
    (if e.0 == k && leb from e.1 && ltb e.1 (from + window) then 1 else 0)
    + in_window window k from es

in_window-append :
    (window : ℕ) (k : String) (from : ℕ) (log : List Call) (c : Call)
    → in_window window k from (log ++ c ∷ [])
      ≡ in_window window k from log + in_window window k from (c ∷ [])
unfolding in_window
in_window-append window k from [] c = ground arith
in_window-append window k from (e ∷ log) c = omega (arith, in_window-append window k from log c)

-- A window that reaches the present holds only calls that are recent.
in_window-recent :
    (window from : ℕ) (c : Call) (log : List Call)
    → c.1 < from + window
    → in_window window c.0 from log ≤ length (filter (is_recent window c) log)
unfolding in_window
in_window-recent window from c [] h = ground arith
in_window-recent window from c (e ∷ log) h = ground (arith, h, in_window-recent window from c log)

room_left :
    (settings : Settings) (k : String) (from : ℕ) (log : List Call) (c : Call)
    → passes settings log c ≡ true
    → in_window settings.rate_limit_window_seconds k from log ≤ settings.rate_limit_requests
    → in_window settings.rate_limit_window_seconds k from (log ++ c ∷ [])
      ≤ settings.rate_limit_requests
unfolding in_window
room_left settings k from log c free h =
    let window = settings.rate_limit_window_seconds in
    let more = in_window-append window k from log c in
    elim (Bool-cases (c.0 == k && leb from c.1 && ltb c.1 (from + window))) [
      | inr outside ↦ ground (arith, more, outside, h)
      | inl inside ↦
          let same : c.0 ≡ k = (Eq-string.beq_iff c.0 k).0 (ground (arith, inside)) in
          let held : in_window window k from log ≤ length (filter (is_recent window c) log) =
            rw (← same) (in_window-recent window from c log (ground (arith, inside))) in
          ground (arith, more, inside, held, free)
    ]

window_bounded :
    (settings : Settings) (k : String) (from : ℕ) (log cs : List Call)
    → in_window settings.rate_limit_window_seconds k from log ≤ settings.rate_limit_requests
    → in_window settings.rate_limit_window_seconds k from log
        + in_window settings.rate_limit_window_seconds k from
            (passed cs (reference settings log cs))
      ≤ settings.rate_limit_requests
unfolding reference passed in_window
window_bounded settings k from log [] h = omega (arith, h)
window_bounded settings k from log (c ∷ cs) h = elim (Bool-cases (passes settings log c)) [
  | inr refused ↦ rw refused (window_bounded settings k from log cs h)
  | inl free ↦
      let rest =
        window_bounded settings k from (log ++ c ∷ []) cs
          (room_left settings k from log c free h) in
      let more = in_window-append settings.rate_limit_window_seconds k from log c in
      rw free (omega (arith, more, rest))
]

-- No window of time, wherever it begins, lets more than `rate_limit_requests` calls of one key
-- through. The calls come in the order of their times, and the buckets are empty at first.
pub rate_bounded :
    (settings : Settings) (k : String) (from : ℕ) (cs : List Call)
    → InOrder 0 cs
    → in_window settings.rate_limit_window_seconds k from
        (passed cs (answers settings cs (λ k. [])))
      ≤ settings.rate_limit_requests
unfolding in_window
rate_bounded settings k from cs order =
    let bound = window_bounded settings k from [] cs (omega arith) in
    rw (limiter_exact settings cs order) (omega (arith, bound))
