-- ===== src/Sensord/Provider/Process/Report.antt =====
-- Which channels report in a pass, and when.
use vibe_xperia.Prelude.{
  ℕ, zero, suc, ◌+◌, ◌-◌, ◌^◌, ◌≤◌, ◌<◌, ◌≡◌, refl, ap, ◌∙◌, false, List, [], ◌∷◌, ◌++◌, map,
  Option, none, some, inl, inr, arith, ltb, leb, ◌&&◌, if◌then◌else◌, Bool-cases, Option-cases, ℤ,
  pos, length, set, get_elem?, get_elem?-set_ne,
}
use vibe_xperia.Sensord.UtilMisc.Chain.{Chain, Fresh, Distinct}
use vibe_xperia.Sensord.Provider.State.{state_normal, Channel, World}
use vibe_xperia.Sensord.Provider.Process.{
  Event, label, over, ticks_between, elapse, is_due, collect, proc_pass,
}

ticks_near : (now last : ℕ) → last ≤ now → now < 2 ^ 31 → ticks_between now last ≡ pos (now - last)
ticks_near now last le lim = ground arith

over-elapse : (e v : ℕ) → over (elapse (pos e) (pos v)) ≡ (ltb 0 e && leb v (e + 1))
unfolding elapse
over-elapse zero v = refl
over-elapse (suc e) v = ground arith

-- A running channel with an interval of `v` ms that is processed and has a rate is due, while the ticks
-- have not reached 2 ^ 31, exactly if a tick and a millisecond less than the interval have passed.
pub is_due_lem :
    (now v : ℕ) (ch : Channel)
    → ch.state ≡ state_normal
    → ch.cfg.bypass_proc ≡ false
    → ch.cfg.no_delay ≡ false
    → ch.interval ≡ pos v
    → ch.ts_last_ev ≤ now
    → now < 2 ^ 31
    → is_due now ch ≡ (ltb ch.ts_last_ev now && leb v (now - ch.ts_last_ev + 1))
unfolding is_due elapse
is_due_lem now v ch st by nd iv le lim =
    rw
      (
        ticks_near now ch.ts_last_ev le lim,
        st,
        by,
        nd,
        iv,
        over-elapse (now - ch.ts_last_ev) v,
        is_due,
      )
      (ground arith)

-- the handles of the channels that are due, in the order of the nodes
abbrev pub due_handles : List Channel → ℕ → List ℕ → List ℤ
due_handles chs now [] = []
due_handles chs now (c ∷ xs) = elim (get_elem? chs c) [
  | none ↦ []
  | some ch ↦ if is_due now ch then ch.handle ∷ due_handles chs now xs else due_handles chs now xs
]

due_handles-set :
    (chs : List Channel) (now c : ℕ) (new : Channel) (xs : List ℕ)
    → Fresh c xs
    → due_handles (set chs c new) now xs ≡ due_handles chs now xs
due_handles-set chs now c new [] f = refl
due_handles-set chs now c new (x ∷ xs) f =
    ground
      (arith, get_elem?-set_ne chs {i = c} {j = x} new f.0, due_handles-set chs now c new xs f.1)

map-label :
    {D : Type 0} (ch : Channel) (out : List D) (rest : List (Event D))
    → length out ≡ 1
    → map (λ e. e.handle) (map (label ch) out ++ rest) ≡ ch.handle ∷ map (λ e. e.handle) rest
map-label ch [] rest h = ground arith
map-label ch (d ∷ []) rest h = refl
map-label ch (d ∷ e ∷ out) rest h = absurd (omega arith)

module _ {S Dev D : Type 0} (get_data : S → ℕ → ℕ → List D × S)
    (one : (v : S) (typ room : ℕ) → length (get_data v typ room).0 ≡ 1) where
  collect-due :
      (fuel now n : ℕ) (w : World S Dev) (p : Option ℕ) (xs : List ℕ)
      → length xs < fuel
      → Distinct xs
      → Chain w.links p xs
      → map (λ e. e.handle) (collect get_data fuel now w p n).0 ≡ due_handles w.channels now xs
  unfolding collect
  collect-due zero now n w p xs h d c = absurd (omega arith)
  collect-due (suc f) now n w p [] h d c = rw c refl
  collect-due (suc f) now n w p (a ∷ xs) h d c =
      rw c.0 (elim (Option-cases (get_elem? w.channels a)) [
        | inl e ↦ rw (e, collect, due_handles) refl
        | inr (ch, e) ↦ elim (Bool-cases (is_due now ch)) [
          | inl due ↦
              rw (e, due, collect, due_handles)
                (map-label ch (get_data w.vars ch.typ (w.sp.client_num - n)).0 _
                    (one w.vars ch.typ (w.sp.client_num - n))
                  ∙ ap (λ hs. ch.handle ∷ hs)
                      (collect-due f now
                          (n + length (get_data w.vars ch.typ (w.sp.client_num - n)).0)
                          (record w {
                            vars = (get_data w.vars ch.typ (w.sp.client_num - n)).1;
                            channels = set w.channels a (record ch { ts_last_ev = now });
                          })
                          (w.links a) xs (omega arith) d.1 c.1
                        ∙ due_handles-set w.channels now a (record ch { ts_last_ev = now }) xs d.0))
          | inr not_due ↦
              rw (e, not_due, collect, due_handles)
                (collect-due f now n w (w.links a) xs (omega arith) d.1 c.1)
        ]
      ])

  -- In a pass with a list of distinct channels, whose `get_data` answer one report each, exactly the
  -- channels that are due report, once each and in the order of the list.
  pub proc_pass-due :
      (proc_data : ℕ → S → S) (start now : ℕ) (w : World S Dev) (xs : List ℕ)
      → length xs ≤ length w.channels
      → Distinct xs
      → Chain w.links w.sp.clients xs
      → map (λ e. e.handle) (proc_pass get_data proc_data start now w).0
        ≡ due_handles w.channels now xs
  unfolding proc_pass
  proc_pass-due proc_data start now w xs h d c =
      collect-due (suc (length w.channels)) now 0 (record w { vars = proc_data start w.vars })
        w.sp.clients xs (omega arith) d c
