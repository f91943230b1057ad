-- ===== src/Monitor/Garbage/Latest.antt =====
-- The latest point of a region under deletions.
use mathlib.Core.Option.{some-injective}
use mathlib.Core.Path.{fun_ext}
use native.Mathlib.Decide.{dec_le}
use ca_dns.Prelude.{
  ℕ, zero, suc, ◌≤◌, max, ◌≡◌, refl, sym, ap, ◌∙◌, ◌⊎◌, inl, inr, Bool, true, false, not, Option,
  none, some, List, [], ◌∷◌, arith, Bool-cases, Option-cases, all, filter,
}
use ca_dns.Prelude.Text.{Text, text_eq, text_eq_iff}
use ca_dns.Prelude.Sort.{In}
use ca_dns.Prelude.Sorted.{In-filter, filter-In}
use ca_dns.Monitor.Signals.{SignalRow, later, latest_point}
use ca_dns.Monitor.Garbage.{RetentionPolicy, delete_batch, is_superseded, is_old_signal}
use ca_dns.Monitor.Garbage.Batches.{kept}

module _ {A : Type 0} (old : A → Bool) where
  In-delete_batch :
      (limit : ℕ) (rows : List A) (x : A) → In x (delete_batch old limit rows).1 → In x rows
  unfolding delete_batch
  In-delete_batch zero rows x h = h
  In-delete_batch (suc limit) [] x h = h
  In-delete_batch (suc limit) (row ∷ rows) x h = elim (Bool-cases (old row)) [
    | inl e ↦ inr (In-delete_batch limit rows x (rw (e, delete_batch) at h))
    | inr e ↦ elim (rw (e, delete_batch) at h) [
      | inl same ↦ inl same
      | inr there ↦ inr (In-delete_batch (suc limit) rows x there)
    ]
  ]

  delete_batch-In :
      (limit : ℕ) (rows : List A) (x : A)
      → In x rows
      → old x ≡ false
      → In x (delete_batch old limit rows).1
  unfolding delete_batch
  delete_batch-In zero rows x h young = h
  delete_batch-In (suc limit) [] x h young = h
  delete_batch-In (suc limit) (row ∷ rows) x (inl same) young =
      let e : old row ≡ false = rw same at young in rw (e, delete_batch) (inl same)
  delete_batch-In (suc limit) (row ∷ rows) x (inr there) young = elim (Bool-cases (old row)) [
    | inl e ↦ rw (e, delete_batch) (delete_batch-In limit rows x there young)
    | inr e ↦ rw (e, delete_batch) (inr (delete_batch-In (suc limit) rows x there young))
  ]

-- `later` is one of its arguments, and not less than either.
later_max : (t : ℕ) (o : Option ℕ) → (m : ℕ) × (later t o ≡ some m) × (t ≤ m)
later_max t none = (t, refl, omega arith)
later_max t (some u) = (max t u, refl, omega arith)

later_grows : (t u : ℕ) → (m : ℕ) × (later t (some u) ≡ some m) × (u ≤ m)
later_grows t u = (max t u, refl, omega arith)

later-cases : (t m : ℕ) (o : Option ℕ) → later t o ≡ some m → (t ≡ m) ⊎ (o ≡ some m)
later-cases t m none h = inl (some-injective _ _ h)
later-cases t m (some u) h =
    let e : max t u ≡ m = some-injective _ _ h in
    elim (dec_le u t) [
      | yes le ↦ inl (omega (arith, e, le))
      | no gt ↦ inr (ap some (omega (arith, e, gt)))
    ]

module _ {Float : Type 0} where
  latest-le :
      (code : Text) (signals : List (SignalRow Float)) (s : SignalRow Float)
      → In s signals
      → s.region_code ≡ code
      → (m : ℕ) × (latest_point code signals ≡ some m) × (s.point_time ≤ m)
  unfolding latest_point
  latest-le code [] s h e = absurd h
  latest-le code (x ∷ xs) s (inl same) e =
      let here : text_eq x.region_code code ≡ true =
        (text_eq_iff x.region_code code).1 (rw same at e) in
      let (m, found, le) = later_max x.point_time (latest_point code xs) in
      rw here (m, found, rw same le)
  latest-le code (x ∷ xs) s (inr there) e =
      let (u, found, le) = latest-le code xs s there e in
      elim (Bool-cases (text_eq x.region_code code)) [
        | inl here ↦
            let (m, grown, le') = later_grows x.point_time u in
            rw (here, found) (m, grown, omega (arith, le, le'))
        | inr elsewhere ↦ rw elsewhere (u, found, le)
      ]

  latest_attained :
      (code : Text) (signals : List (SignalRow Float)) (m : ℕ)
      → latest_point code signals ≡ some m
      → (s : SignalRow Float) × In s signals × (s.region_code ≡ code) × (s.point_time ≡ m)
  unfolding latest_point
  latest_attained code [] m h = cc
  latest_attained code (x ∷ xs) m h = elim (Bool-cases (text_eq x.region_code code)) [
    | inl here ↦ elim (later-cases x.point_time m (latest_point code xs) (rw here at h)) [
      | inl same ↦ (x, inl refl, (text_eq_iff x.region_code code).0 here, same)
      | inr rest ↦
          let (s, there, at, when) = latest_attained code xs m rest in (s, inr there, at, when)
    ]
    | inr elsewhere ↦
        let (s, there, at, when) = latest_attained code xs m (rw elsewhere at h) in
        (s, inr there, at, when)
  ]

  -- Two tables that share their latest points of a region have the same latest point.
  latest_agrees :
      (code : Text) (all some_of : List (SignalRow Float))
      → ((s : SignalRow Float) → In s some_of → In s all)
      → ((s : SignalRow Float)
          → In s all
          → s.region_code ≡ code
          → latest_point code all ≡ some s.point_time
          → In s some_of)
      → latest_point code some_of ≡ latest_point code all
  latest_agrees code all some_of sub stays = elim (Option-cases (latest_point code all)) [
    | inl e ↦ elim (Option-cases (latest_point code some_of)) [
      | inl e' ↦ e' ∙ sym e
      | inr (m, e') ↦
          let (s, there, at, when) = latest_attained code some_of m e' in
          let (m', e'', le) = latest-le code all s (sub s there) at in
          absurd (ground (arith, e, e''))
    ]
    | inr (m, e) ↦
        let (s, there, at, when) = latest_attained code all m e in
        let (m', e', le) = latest-le code some_of s (stays s there at (rw when e)) at in
        let (s', there', at', when') = latest_attained code some_of m' e' in
        let (m'', e'', le'') = latest-le code all s' (sub s' there') at' in
        let same : m'' ≡ m = some-injective _ _ (sym e'' ∙ e) in
        e' ∙ ap some (omega (arith, le, when, le'', when', same)) ∙ sym e
  ]

  newest_stays :
      (now : ℕ) (policy : RetentionPolicy) (signals : List (SignalRow Float)) (s : SignalRow Float)
      → latest_point s.region_code signals ≡ some s.point_time
      → is_old_signal now policy signals s ≡ false
  newest_stays now policy signals s e =
      let current : is_superseded signals s ≡ false = rw (e, is_superseded) (ground arith) in
      ground (arith, current)

  old_signal_current :
      (now : ℕ) (policy : RetentionPolicy) (signals : List (SignalRow Float)) (code : Text)
      (s : SignalRow Float)
      → s.region_code ≡ code
      → latest_point code signals ≡ some s.point_time
      → is_old_signal now policy signals s ≡ false
  old_signal_current now policy signals code s at latest =
      newest_stays now policy signals s (ap (λ c. latest_point c signals) at ∙ latest)

  -- Whether a point is old does not change when a batch of old points goes.
  pub is_old_signal-stable :
      (now : ℕ) (policy : RetentionPolicy) (limit : ℕ) (signals : List (SignalRow Float))
      → is_old_signal now policy (delete_batch (is_old_signal now policy signals) limit signals).1
        ≡ is_old_signal now policy signals
  is_old_signal-stable now policy limit signals = fun_ext λ x.
      let old = is_old_signal now policy signals in
      rw
        (
          is_superseded,
          latest_agrees x.region_code signals (delete_batch old limit signals).1
              (In-delete_batch old limit signals)
              (λ s there at latest.
                delete_batch-In old limit signals s there
                  (old_signal_current now policy signals x.region_code s at latest)),
        )
        refl

  pub latest-kept :
      (now : ℕ) (policy : RetentionPolicy) (signals : List (SignalRow Float)) (code : Text)
      → latest_point code (kept (is_old_signal now policy signals) signals)
        ≡ latest_point code signals
  latest-kept now policy signals code =
      let young = λ (s : SignalRow Float). not (is_old_signal now policy signals s) in
      latest_agrees code signals (filter young signals)
        (λ s there. (In-filter young signals s there).0)
        (λ s there at latest.
          filter-In young signals s there
            (ap not (old_signal_current now policy signals code s at latest)))
