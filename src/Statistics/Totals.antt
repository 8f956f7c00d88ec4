-- ===== src/Statistics/Totals.antt =====
-- What the statistics count.
use robot_remote_control.Base.{
  some_inj, write_at_ok, get_elem?-lt, ℕ, zero, suc, Bool, set, replicate, length-replicate,
  Returns-map, ◌<◌, ◌≤◌, ◌≡◌, refl, ap, sym, ◌∙◌, true, Bool-cases, inl, inr, ==_iff, ◌==◌,
  if◌then◌else◌, none, some, List, [], ◌∷◌, map, ok, fault, Fault, length, length-set, get_elem?,
  get_elem?-some, get_elem?-none, get_elem?-set_self, get_elem?-set_ne, Returns, arith,
}
use robot_remote_control.Doubles.{Doubles}
use robot_remote_control.MessageTypes.Telemetry
use robot_remote_control.Statistics.{
  Stats, Statistics, add_bytes_sent, calculate, calculate_all, update_statistics, new_stats,
  new_statistics, Event, sent, calculated, record_event, record_events,
}

module _ (d : Doubles) where
  open d use {Double, of_ℕ, add}

  -- The bytes since the last calculation, and in all, of the events that a test selects, added in their
  -- order to what was counted before.
  abbrev pub counted : (ℕ → Bool) → List (Event d) → Double × Double → Double × Double
  counted chosen [] (since, total) = (since, total)
  counted chosen (sent bytes type ∷ events) (since, total) =
      counted chosen events
        (if chosen type then (add since (of_ℕ bytes), add total (of_ℕ bytes)) else (since, total))
  counted chosen (calculated now ∷ events) (since, total) = counted chosen events (of_ℕ 0, total)

  abbrev pub counts : Stats Double → Double × Double
  counts s = (s.bytes_since_last, s.bytes_total)

  -- Whether every type that was sent has its place.
  abbrev pub InRange : List (Event d) → Type 0
  InRange [] = Unit {0}
  InRange (sent bytes type ∷ events) =
      (type < Telemetry.telemetry_message_types_number) × InRange events
  InRange (calculated now ∷ events) = InRange events

  abbrev every : ℕ → Bool
  every type = true

  -- The statistics of a type have counted the messages of that type, and the global ones all.
  record Counts (events : List (Event d)) (s s' : Statistics Double) : Type 0 where
    same_length : length s'.stat_per_type ≡ length s.stat_per_type
    all : counts s'.global ≡ counted every events (counts s.global)
    of_type :
        (type : ℕ) (t : Stats Double)
        → get_elem? s.stat_per_type type ≡ some t
        → (t' : Stats Double) × (get_elem? s'.stat_per_type type ≡ some t')
          × (counts t' ≡ counted (λ j. j == type) events (counts t))

  get_elem?-map :
      {A B : Type 0} (f : A → B) (xs : List A) (i : ℕ) {a : A}
      → get_elem? xs i ≡ some a
      → get_elem? (map f xs) i ≡ some (f a)
  get_elem?-map f [] i e = cc
  get_elem?-map f (x ∷ xs) zero {a} e =
      ap (λ o. elim o [ none ↦ some (f x) | some y ↦ some (f y) ]) e
  get_elem?-map f (x ∷ xs) (suc i) e = get_elem?-map f xs i e

  length-map : {A B : Type 0} (f : A → B) (xs : List A) → length (map f xs) ≡ length xs
  length-map f [] = refl
  length-map f (x ∷ xs) = ap suc (length-map f xs)

  get_elem?-replicate :
      {A : Type 0} (n i : ℕ) (a : A) → i < n → get_elem? (replicate n a) i ≡ some a
  get_elem?-replicate zero i a h = elim h [ ]
  get_elem?-replicate (suc n) zero a h = refl
  get_elem?-replicate (suc n) (suc i) a h = get_elem?-replicate n i a (omega arith)

  update_statistics_found :
      (bytes type : ℕ) (t : Stats Double) (s : Statistics Double)
      → get_elem? s.stat_per_type type ≡ some t
      → update_statistics d bytes type s
        ≡ ok (record {
          global = add_bytes_sent d (of_ℕ bytes) s.global;
          stat_per_type = set s.stat_per_type type (add_bytes_sent d (of_ℕ bytes) t);
        })
  unfolding update_statistics
  update_statistics_found bytes type t s found =
      rw
        (
          found,
          write_at_ok s.stat_per_type type (add_bytes_sent d (of_ℕ bytes) t)
              (get_elem?-lt s.stat_per_type type found),
        )
        refl

  record_events-Counts :
      (events : List (Event d)) (s : Statistics Double)
      → InRange events
      → length s.stat_per_type ≡ Telemetry.telemetry_message_types_number
      → Returns (record_events d events s) (Counts events s)
  unfolding record_events record_event add_bytes_sent calculate_all calculate
  record_events-Counts [] s fits whole = record {
    same_length = refl;
    all = refl;
    of_type = λ type t e. (t, e, refl);
  }
  record_events-Counts (calculated now ∷ events) s fits whole =
      Returns-map (Counts events (calculate_all d now s)) _ _
        (record_events-Counts events (calculate_all d now s) fits
          (length-map (calculate d now) s.stat_per_type ∙ whole))
        λ s' c. record {
          same_length = c.same_length ∙ length-map (calculate d now) s.stat_per_type;
          all = c.all;
          of_type = λ type t e.
              c.of_type type (calculate d now t)
                (get_elem?-map (calculate d now) s.stat_per_type type e);
        }
  record_events-Counts (sent bytes type ∷ events) s (small, fits) whole =
      let (t, found) = get_elem?-some s.stat_per_type type (omega arith) in
      let counting = add_bytes_sent d (of_ℕ bytes) in
      let s1 : Statistics Double = record {
        global = counting s.global;
        stat_per_type = set s.stat_per_type type (counting t);
      } in
      rw (update_statistics_found bytes type t s found) (
        Returns-map (Counts events s1) _ _
          (record_events-Counts events s1 fits
            (length-set s.stat_per_type type (counting t) ∙ whole))
          λ s' c. record {
            same_length = c.same_length ∙ length-set s.stat_per_type type (counting t);
            all = c.all;
            of_type = λ j u e. elim (Bool-cases (type == j)) [
              | inl same ↦
                  let here = (==_iff type j).0 same in
                  let is_t : t ≡ u = some_inj (sym found ∙ rw here e) in
                  let there : get_elem? s1.stat_per_type j ≡ some (counting u) =
                    rw (← here, ← is_t)
                      (get_elem?-set_self s.stat_per_type type (counting t) (omega arith)) in
                  rw same (c.of_type j (counting u) there)
              | inr other ↦
                  let there : get_elem? s1.stat_per_type j ≡ some u =
                    get_elem?-set_ne s.stat_per_type type j (counting t)
                      (λ eq. cc (other, (==_iff type j).1 eq))
                    ∙ e in
                  rw other (c.of_type j u there)
            ];
          })

  -- After any messages that were sent, each of a type of the library, and calculations among them, the
  -- global statistics hold as bytes in all, and as bytes since the last calculation, what was sent,
  -- and those of each type what was sent of that type, in the order in which it was added.
  pub record_events-new_statistics :
      (events : List (Event d)) (factor : Double) (now : ℕ) (garbage : Double) (type : ℕ)
      → InRange events
      → type < Telemetry.telemetry_message_types_number
      → Returns (record_events d events (new_statistics d factor now garbage)) (λ s.
        (counts s.global ≡ counted every events (of_ℕ 0, of_ℕ 0))
        × (t : Stats Double) × (get_elem? s.stat_per_type type ≡ some t)
        × (counts t ≡ counted (λ j. j == type) events (of_ℕ 0, of_ℕ 0)))
  unfolding new_statistics new_stats
  record_events-new_statistics events factor now garbage type fits small =
      let begin = new_statistics d factor now garbage in
      let fresh = new_stats d (of_ℕ 10) factor now garbage in
      Returns-map (Counts events begin) _ _
        (record_events-Counts events begin fits
          (length-replicate Telemetry.telemetry_message_types_number fresh))
        λ s c.
          let (t, found, count) =
            c.of_type type fresh
              (get_elem?-replicate Telemetry.telemetry_message_types_number type fresh small) in
          (c.all, t, found, count)

  -- A message of another type, as of an application that extends the library, makes
  -- `updateStatistics` index the array out of bounds.
  pub update_statistics_out :
      (bytes type : ℕ) (s : Statistics Double)
      → length s.stat_per_type ≤ type
      → update_statistics d bytes type s ≡ fault Fault.out_of_bounds
  unfolding update_statistics
  update_statistics_out bytes type s large = rw (get_elem?-none s.stat_per_type type large) refl
