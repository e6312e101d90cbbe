-- ===== src/Tests/GuestsTests.antt =====
-- pkg/tests with a guest agent that is late.
use containerdisks.Base.{ℕ, zero, suc, ◌≡◌, refl, false, [], ◌∷◌, codes}
use containerdisks.Go.Result.{Result, ok, err, plain}
use containerdisks.Effects.{Eff, call}
use containerdisks.Guests.{Event, tried, Kubevirt, guest_os_info, retry_test}

-- The world is the number of rounds until the agent answers.
abbrev agent : ℕ → Result (Unit {0}) × ℕ
agent zero = (ok tt, zero)
agent (suc n) = (err (plain (codes "no agent")), n)

abbrev kubevirt : Kubevirt
kubevirt = record {
  World = ℕ;
  Client = Unit {0};
  Key = Unit {0};
  Signer = Unit {0};
  Tunnel = Unit {0};
  Connection = Unit {0};
  Session = Unit {0};
  done_or_wait = λ seconds w. (false, w);
  get_client = λ w. (ok tt, w);
  new_signer = λ k. ok tt;
  guest_os_info = λ client namespace name w. agent w;
  port_forward = λ client namespace name port protocol w. (ok tt, w);
  new_client_connection = λ tunnel address user signer w. (ok tt, w);
  new_session = λ connection w. (ok tt, w);
  run_command = λ session command w. (ok tt, w);
}

abbrev asked : Eff ℕ Event (Unit {0})
asked = call (tried ∷ []) agent

asked_late :
    (guest_os_info kubevirt (record { name = codes "vm"; namespace = codes "kubevirt" }) 2).1
    ≡ tried ∷ tried ∷ tried ∷ []
unfolding guest_os_info retry_test call containerdisks.Effects.◌>>=◌
    containerdisks.Guests.retry_loop containerdisks.Guests.select_done
    containerdisks.Effects.on_error containerdisks.Effects.branch
asked_late = refl
