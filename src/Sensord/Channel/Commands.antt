-- ===== src/Sensord/Channel/Commands.antt =====
-- The commands of the clients, one after the other.
use vibe_xperia.Prelude.{
  ℕ, ◌≡◌, refl, Bool, true, false, List, some, inl, inr, arith, ◌==◌, if◌then◌else◌, Option-cases,
  ℤ, pos, negsuc, is_err, einval, minus_one, get_elem?,
}
use vibe_xperia.Sensord.Hw.{Driver}
use vibe_xperia.Sensord.Provider.State.{state_sleep, state_normal, Channel, Ops, World, to_s16}
use vibe_xperia.Sensord.Provider.{sp_recalc_interval_re}
use vibe_xperia.Sensord.Channel.{
  eq_ℤ, set_sensor_active, set_sensor_delay, channel_get_ch, clamp_delay, channel_set_state,
  set_delay, delay, on_channel, channel_on_cmd_received,
}
use vibe_xperia.Sensord.Channel.Inv.{Linked, stay, channel_set_state-Linked}

pub channel_get_ch_at :
    (chs : List Channel) (handle : ℤ) (i : ℕ) (ch : Channel)
    → channel_get_ch chs handle ≡ some (i, ch)
    → get_elem? chs i ≡ some ch
unfolding channel_get_ch
channel_get_ch_at chs handle i ch e = ground arith

abbrev Kept : {S Dev : Type 0} → World S Dev → Type 0
Kept {S} {Dev} w = (ys : List ℕ) × Linked w ys

Kept-if :
    {S Dev : Type 0} (b : Bool) (r r' : ℤ × World S Dev)
    → Kept r.1
    → Kept r'.1
    → Kept (if b then r else r').1
Kept-if true r r' k k' = k
Kept-if false r r' k k' = k'

module _ {S Dev : Type 0} (driver : Driver Dev) (ops : Ops S) where
  set_delay-Linked :
      (w : World S Dev) (i : ℕ) (ch : Channel) (value : ℕ) (xs : List ℕ)
      → get_elem? w.channels i ≡ some ch
      → Linked w xs
      → Linked (set_delay ops w i ch value) xs
  unfolding set_delay sp_recalc_interval_re
  set_delay-Linked w i ch value xs at inv =
      let new = record ch {
        interval = to_s16 (ops.on_ch_interval_changed w.vars ch.typ (pos value)).1;
      } in
      let v = stay w xs i ch new inv at refl refl in
      record {
        chain = v.chain;
        distinct = v.distinct;
        members = v.members;
        number = v.number;
        refs = v.refs;
        small = v.small;
      }

  on_channel-Linked :
      (w : World S Dev) (i : ℕ) (ch : Channel) (cmd value : ℤ) (xs : List ℕ)
      → get_elem? w.channels i ≡ some ch
      → Linked w xs
      → (ys : List ℕ) × Linked (on_channel driver ops w i ch cmd value).1 ys
  on_channel-Linked w i ch cmd value xs at inv =
      Kept-if (ch.cfg.availability == 0) (minus_one, w) _ (xs, inv)
        (Kept-if (eq_ℤ cmd set_sensor_active) (pos 0, (channel_set_state driver ops w i ch state).1)
          _ (channel_set_state-Linked driver ops w i ch xs at inv state)
          (Kept-if (eq_ℤ cmd set_sensor_delay) (delay driver ops w i ch value) (einval, w)
            (delayed value) (xs, inv)))
    where
      state : ℕ
      state = if is_err value then state_normal else state_sleep

      delayed : (v : ℤ) → Kept (delay driver ops w i ch v).1
      delayed (negsuc n) = (xs, inv)
      delayed (pos v) = (xs, set_delay-Linked w i ch (clamp_delay ch.cfg v) xs at inv)

  -- Every command, right or wrong, keeps the list and the count right.
  pub channel_on_cmd_received-Linked :
      (w : World S Dev) (handle cmd value : ℤ) (xs : List ℕ)
      → Linked w xs
      → (ys : List ℕ) × Linked (channel_on_cmd_received driver ops w handle cmd value).1 ys
  unfolding channel_on_cmd_received
  channel_on_cmd_received-Linked w handle cmd value xs inv =
      elim (Option-cases (channel_get_ch w.channels handle)) [
        | inl e ↦ rw (e, channel_on_cmd_received) (xs, inv)
        | inr ((i, ch), e) ↦
            rw (e, channel_on_cmd_received)
              (on_channel-Linked w i ch cmd value xs (channel_get_ch_at w.channels handle i ch e)
                inv)
      ]

  -- A refused command changes nothing: the result is an error only where the daemon's state is the
  -- one before.
  pub channel_on_cmd_received_error :
      (w : World S Dev) (handle cmd value : ℤ)
      → is_err (channel_on_cmd_received driver ops w handle cmd value).0 ≡ true
      → (channel_on_cmd_received driver ops w handle cmd value).1 ≡ w
  unfolding channel_on_cmd_received
  channel_on_cmd_received_error w handle cmd value e = ground arith
