-- ===== src/Guests.antt =====
-- pkg/tests: the tests that a machine goes through, and their repetition.
pub mod Retry
use containerdisks.Base.{
  ℕ, zero, suc, Bool, true, false, Option, none, some, [], ◌∷◌, ◌++◌, Text, codes,
}
use containerdisks.Go.Result.{Error, wrapped, Result, ok}
use containerdisks.Effects.{branch, Eff, pure, raise, lift, call, on_error, ◌>>=◌}

-- A round of a test.
pub data Event : Type 0 where
  tried : Event

-- The clients of KubeVirt and SSH, and the context with the clock. `done_or_wait` is the select
-- between the end of the context and so many seconds: it tells if the context has ended.
pub record Kubevirt : Type 1 where
  pub World : Type 0
  pub Client : Type 0
  pub Key : Type 0
  pub Signer : Type 0
  pub Tunnel : Type 0
  pub Connection : Type 0
  pub Session : Type 0
  pub done_or_wait : ℕ → World → Bool × World
  pub get_client : World → Result Client × World
  pub new_signer : Key → Result Signer
  pub guest_os_info : Client → Text → Text → World → Result (Unit {0}) × World
  pub port_forward : Client → Text → Text → ℕ → Text → World → Result Tunnel × World
  pub new_client_connection : Tunnel → Text → Text → Signer → World → Result Connection × World
  pub new_session : Connection → World → Result Session × World
  pub run_command : Session → Text → World → Result (Unit {0}) × World

-- An instance of a machine, as far as the tests read it.
pub record Instance : Type 0 where
  pub name : Text
  pub namespace : Text

abbrev pub max_retries : ℕ
max_retries = 30

abbrev pub retry_duration : ℕ
retry_duration = 10

abbrev pub ssh_port : ℕ
ssh_port = 22

module _ (K : Kubevirt) where
  open K use {World, Client, Key, Signer}

  abbrev pub M : Type 0 → Type 0
  M A = Eff World Event A

  -- The error of the last round, if there was a round.
  abbrev pub last_error : Option Error → M (Unit {0})
  last_error none = pure tt
  last_error (some e) = raise e

  unfoldable pub select_done : M Bool
  select_done w = let (done, w') = K.done_or_wait retry_duration w in (ok done, [], w')

  -- The rounds left, whether a round came before, and its error. Before any other round but the
  -- first the loop waits, and ends without an error if the context has.
  unfoldable pub retry_loop : ℕ → Bool → Option Error → M (Unit {0}) → M (Unit {0})
  retry_loop zero later last test = last_error last
  retry_loop (suc n) later last test =
      let round = on_error (λ e. retry_loop n true (some e) test) test in
      branch later (do done ← select_done; branch done (pure tt) round) round

  unfoldable pub retry_test : M (Unit {0}) → M (Unit {0})
  retry_test test = retry_loop max_retries false none test

  unfoldable pub guest_os_info : Instance → M (Unit {0})
  guest_os_info vmi = do
    client ← call [] K.get_client
    retry_test (call (tried ∷ []) (K.guest_os_info client vmi.namespace vmi.name))

  -- The error of the tunnel is wrapped.
  unfoldable pub test_ssh : Instance → Client → Text → Signer → M (Unit {0})
  test_ssh vmi client username signer = do
    tunnel ←
        on_error (λ e. raise (wrapped (codes "failed to forward ssh port: ") e))
          (call (tried ∷ []) (K.port_forward client vmi.namespace vmi.name ssh_port (codes "tcp")))
    connection ← call [] (
        K.new_client_connection tunnel
          (codes "vmi/" ++ (vmi.name ++ (b'.' ∷ (vmi.namespace ++ codes ":22")))) username signer)
    session ← call [] (K.new_session connection)
    call [] (K.run_command session (codes "echo hello"))

  unfoldable pub ssh : Instance → Text → Key → M (Unit {0})
  ssh vmi username private_key = do
    client ← call [] K.get_client
    signer ← lift (K.new_signer private_key)
    retry_test (test_ssh vmi client username signer)
