-- ===== src/LocApi/NmeaTests.antt =====
-- Sentences, and a data call that is refused, of gps/loc_api/libloc_api_50001.
use vibe_xperia.Prelude.{
  ℕ, ◌+◌, ◌≡◌, refl, ap, pos, true, false, List, [], ◌∷◌, ◌++◌, arith, length,
}
use vibe_xperia.LocApi.Nmea.{Bytes, put_checksum, gps, Sv, in_view, generate_in_view}
use vibe_xperia.LocApi.Nmea.Checksum.{NoStar, is_sentence, is_sentence-put_checksum}
use vibe_xperia.LocApi.Agps.{Subscriber, bit, ds, pending, rsrc_released, new_machine}
use vibe_xperia.LocApi.Agps.Ds.{Ds, success, request_atl, ds_on_rsrc_event}
use vibe_xperia.LocApi.Agps.Ds.Released.{fallen_back, denied_machine, ds_released_pending}

-- "GPGLL,1"
abbrev gll : Bytes
gll = b'G' ∷ b'P' ∷ b'G' ∷ b'L' ∷ b'L' ∷ b',' ∷ b'1' ∷ []

gll_sum : (put_checksum 200 (b'$' ∷ gll)).0 ≡ b'$' ∷ gll ++ (b'*' ∷ b'4' ∷ b'D' ∷ 13 ∷ 10 ∷ [])
unfolding put_checksum
gll_sum = refl

is_sentence-put_checksum_example :
    (is_sentence (put_checksum 200 (b'$' ∷ gll)).0 ≡ true)
    × ((put_checksum 200 (b'$' ∷ gll)).1 + 1 ≡ length (put_checksum 200 (b'$' ∷ gll)).0)
unfolding NoStar
is_sentence-put_checksum_example =
    is_sentence-put_checksum 200 gll (omega arith) (omega arith) (omega arith)

abbrev sv : ℕ → Sv
sv prn = record { prn = prn; position_len = 11; snr_len = 2; has_snr = true }

-- six GPS satellites among others
abbrev sky : List Sv
sky = sv 1 ∷ sv 70 ∷ sv 2 ∷ sv 3 ∷ sv 200 ∷ sv 4 ∷ sv 31 ∷ sv 32 ∷ []

abbrev head : ℕ → ℕ → ℕ → ℕ
head a b c = 12

two_sentences :
    (generate_in_view head gps sky).0
    ≡ in_view gps 2 1 8 (sv 1 ∷ sv 2 ∷ sv 3 ∷ sv 4 ∷ [])
      ∷ in_view gps 2 2 8 (sv 31 ∷ sv 32 ∷ [])
      ∷ []
unfolding generate_in_view
two_sentences = refl

abbrev caller : Subscriber
caller = record { kind = ds; id = 6; ipv6_addr = 0; is_inactive = false }

abbrev tired : Ds
tired = record { machine = new_machine caller false; retries = 4; calls = []; timers = 4 }

-- A data call is pending for it and for another client, after three retries.
abbrev dialling : Ds
dialling = record tired {
  machine = record (new_machine caller false) {
    state_ptr = pending;
    subscribers = caller ∷ record caller { kind = bit; id = 2 } ∷ [];
  };
  retries = 3;
}

ds_released_pending_example :
    ds_on_rsrc_event success rsrc_released dialling
    ≡ fallen_back dialling.machine.subscribers
        (record dialling { machine = denied_machine dialling.machine })
ds_released_pending_example = ds_released_pending success dialling refl

one_request : (ds_on_rsrc_event success rsrc_released dialling).calls ≡ request_atl (pos 6) ∷ []
one_request = ap (λ (d : Ds). d.calls) (ds_released_pending success dialling refl)
