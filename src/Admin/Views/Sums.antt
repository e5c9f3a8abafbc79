-- ===== src/Admin/Views/Sums.antt =====
-- The totals of a topic.
use novaque.Prelude.{
  ℕ, ◌+◌, ◌≡◌, refl, ap, inl, inr, Option, List, [], ◌∷◌, map, ◌==◌, arith, Bool-cases,
}
use novaque.Prelude.Lists.{select}
use novaque.Store.Types.{ChannelInfo, BacklogRow}
use novaque.Admin.Views.{
  ChannelView, or_zero, zero_backlog, add_backlog, collect, channels_with_backlog,
}

abbrev pub sum_of : (BacklogRow → ℕ) → List ChannelView → ℕ
sum_of f [] = 0
sum_of f (c ∷ cs) = f c.backlog + sum_of f cs

module _ (topic : ℕ) (by_channel : ℕ → Option BacklogRow) where
  abbrev row_of_channel : ChannelInfo → ChannelView
  row_of_channel c = record { id = c.id; name = c.name; backlog = or_zero (by_channel c.id) }

  collect-rows :
      (cs : List ChannelInfo) (t : BacklogRow)
      → (collect topic by_channel cs t).0
        ≡ map row_of_channel (select (λ c. c.topic_id == topic) cs)
  unfolding collect
  collect-rows [] t = refl
  collect-rows (c ∷ cs) t = elim (Bool-cases (c.topic_id == topic)) [
    | inl e ↦ rw e (ap (λ rs. row_of_channel c ∷ rs) (collect-rows cs _))
    | inr e ↦ rw e (collect-rows cs t)
  ]

  collect-total :
      (f : BacklogRow → ℕ)
      → ((t b : BacklogRow) → f (add_backlog t b) ≡ f t + f b)
      → (cs : List ChannelInfo) (t : BacklogRow)
      → f (collect topic by_channel cs t).1 ≡ f t + sum_of f (collect topic by_channel cs t).0
  unfolding collect
  collect-total f adds [] t = omega arith
  collect-total f adds (c ∷ cs) t = elim (Bool-cases (c.topic_id == topic)) [
    | inl e ↦ rw e (
        omega (
          arith,
          collect-total f adds cs (add_backlog t (or_zero (by_channel c.id))),
          adds t (or_zero (by_channel c.id)),
        ))
    | inr e ↦ rw e (collect-total f adds cs t)
  ]

  -- A topic's rows are the listed channels of the topic, in their order and with zeros where no backlog
  -- was read, and each total is the sum of the rows' counts.
  pub channels_with_backlog-sums :
      (channels : List ChannelInfo)
      → let v = channels_with_backlog channels topic by_channel in
        (v.0
          ≡ map
              (λ c. record { id = c.id; name = c.name; backlog = or_zero (by_channel c.id) })
              (select (λ c. c.topic_id == topic) channels))
        × (v.1.pending ≡ sum_of (λ b. b.pending) v.0)
        × (v.1.ready ≡ sum_of (λ b. b.ready) v.0)
        × (v.1.in_flight ≡ sum_of (λ b. b.in_flight) v.0)
        × (v.1.dead ≡ sum_of (λ b. b.dead) v.0)
  unfolding channels_with_backlog
  channels_with_backlog-sums channels = (
    collect-rows channels zero_backlog,
    omega (arith, collect-total (λ b. b.pending) (λ t b. refl) channels zero_backlog),
    omega (arith, collect-total (λ b. b.ready) (λ t b. refl) channels zero_backlog),
    omega (arith, collect-total (λ b. b.in_flight) (λ t b. refl) channels zero_backlog),
    omega (arith, collect-total (λ b. b.dead) (λ t b. refl) channels zero_backlog),
  )
