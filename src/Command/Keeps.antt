-- ===== src/Command/Keeps.antt =====
-- Open connections: what each part of a command does to their number.
use Prim.Native.Nat.{ℕ, suc, ◌-◌}
use Prim.Native.Char.{Char}
use Prim.Native.String.{String}
use brod_cli.Base.{◌≡◌, refl, sym, ap, ◌∙◌, ◌⊎◌, inl, inr, List, [], ◌∷◌, Bool-cases, arith, Option}
use brod_cli.Base.Int.{ℤ}
use brod_cli.Base.Float.{Float}
use brod_cli.Collect.Types.{and_then}
use brod_cli.Collect.Keeps.{Keeps, same-Keeps, and_then-Keeps, if-Keeps, build-Keeps}
use brod_cli.Kafka.ReadOnly.{ReadOnlyCheck}
use brod_cli.Kafka.Admin.{Admin}
use brod_cli.Kafka.Reads.{client_reader}
use brod_cli.Kafka.Keeps.{KeepsRequests, client_reader-Keeps, probe_rights-Keeps}
use brod_cli.Kafka.Connect.{
  SaslConfig, Config, Mechanism, ClientOption, Dialer, is_empty, sasl_mechanism, client_options,
  verified, dialled, dial, connect,
}
use brod_cli.Command.Words.{runes, trim}
use brod_cli.Command.World.{System, deferred}
use brod_cli.Command.Live.{
  ConnectFlags, config_of, options_of, judged, enforce_read_only, collected, use_client,
  with_bootstrap, verdict, connect_and_collect,
}

-- A client counts as one open connection from the call that makes it until it is closed, and no
-- other call opens or closes one.
pub record IsCounting {S : Type 0} (os : System S) (d : Dialer S) (a : Admin S) (opened : S → ℕ)
    : Type 0 where
  pub new_fails :
      (opts : List ClientOption) (s s' : S) (e : String)
      → d.new_client opts s ≡ (inl e, s')
      → opened s' ≡ opened s
  pub new_opens :
      (opts : List ClientOption) (s s' : S)
      → d.new_client opts s ≡ (inr tt, s')
      → opened s' ≡ suc (opened s)
  pub closes : (s : S) → opened (d.close s) ≡ opened s - 1
  pub verifies : Keeps opened d.broker_metadata
  pub requests : KeepsRequests opened a
  pub reads : (path : String) → Keeps opened (os.read_file path)
  pub writes : (path text : String) → Keeps opened (os.write_file path text)
  pub reads_in : Keeps opened os.read_stdin
  pub writes_out : (text : String) → Keeps opened (os.write_out text)
  pub prints : (text : String) (s : S) → opened (os.print text s) ≡ opened s
  pub notes : (text : String) (s : S) → opened (os.note text s) ≡ opened s
  pub tells_time : Keeps opened os.now
  pub sleeps : (window : ℤ) → Keeps opened (os.sleep window)
  pub times_out : (window : ℤ) (s : S) → opened (os.with_timeout window s) ≡ opened s
  pub cancels : (s : S) → opened (os.cancel s) ≡ opened s

-- The number of open connections after a call that opens one if it succeeds.
abbrev pub after : {E A : Type 0} → E ⊎ A → ℕ → ℕ
after (inl e) n = n
after (inr v) n = suc n

module _ {S : Type 0} (os : System S) (d : Dialer S) (a : Admin S) (opened : S → ℕ)
    (counting : IsCounting os d a opened) (quote : String → String) (env : String → String) where
  verified-opened :
      (s : SaslConfig) (n : ℕ) (r : (String ⊎ Unit {0}) × S)
      → opened r.1 ≡ suc n
      → opened (verified quote env d s r).1 ≡ after (verified quote env d s r).0 n
  unfolding verified
  verified-opened s n (inl e, t) h = counting.closes t ∙ ap (λ k. k - 1) h ∙ omega arith
  verified-opened s n (inr c, t) h = h

  dialled-opened :
      (cfg : SaslConfig) (opts : List ClientOption) (s : S) (r : (String ⊎ Unit {0}) × S)
      → d.new_client opts s ≡ r
      → opened (dialled quote env d cfg r).1 ≡ after (dialled quote env d cfg r).0 (opened s)
  dialled-opened cfg opts s (inl e, t) p = counting.new_fails opts s t e p
  dialled-opened cfg opts s (inr c, t) p =
      verified-opened cfg (opened s) (d.broker_metadata t)
        (counting.verifies t _ _ refl ∙ counting.new_opens opts s t p)

  dial-opened :
      (cfg : Config) (m : String ⊎ Option Mechanism) (s : S)
      → opened (dial quote env d cfg m s).1 ≡ after (dial quote env d cfg m s).0 (opened s)
  dial-opened cfg (inl e) s = refl
  dial-opened cfg (inr mech) s = dialled-opened cfg.sasl (client_options cfg mech) s _ refl

  -- A connection that succeeds is the one more that is open; one that fails, at whatever step,
  -- leaves no more open than before.
  pub connect-opened :
      (cfg : Config) (s : S)
      → opened (connect quote env d cfg s).1 ≡ after (connect quote env d cfg s).0 (opened s)
  unfolding connect
  connect-opened cfg s = elim (Bool-cases (is_empty cfg.bootstrap)) [
    | inl none_given ↦ rw none_given refl
    | inr some_given ↦ rw some_given (dial-opened cfg (sasl_mechanism quote env cfg.sasl) s)
  ]

  verdict-Keeps : (vs : List String) → Keeps opened (verdict quote env os d a vs)
  unfolding verdict
  verdict-Keeps [] s s' r e = sym (ap (λ z. opened z.1) e) ∙ counting.notes _ s
  verdict-Keeps (v ∷ vs) s s' r e = sym (ap (λ z. opened z.1) e)

  judged-Keeps : (chk : ReadOnlyCheck) → Keeps opened (judged quote env os d a chk)
  unfolding judged
  judged-Keeps chk =
      if-Keeps opened chk.supported _ _ (verdict-Keeps chk.violations)
        (same-Keeps opened _ (λ s. counting.notes _ s))

  module _ (F : Type 0) ⦃f : Float F⦄ (cf : ConnectFlags) where
    collected-Keeps : Keeps opened (collected quote env os d a {F = F} cf)
    unfolding collected
    collected-Keeps s s' r e =
        let (now, t) = os.now s in
        build-Keeps opened (client_reader a quote) os.sleep (options_of cf now) now
          (client_reader-Keeps opened a counting.requests quote) (counting.sleeps _) t s' r e
        ∙ counting.tells_time s t now refl

    use_client-Keeps : Keeps opened (use_client quote env os d a {F = F} cf)
    unfolding use_client enforce_read_only
    use_client-Keeps =
        if-Keeps opened cf.require_read_only _ _
          (and_then-Keeps opened _ _
            (and_then-Keeps opened _ _ (probe_rights-Keeps opened a counting.requests quote)
              judged-Keeps)
            (λ _. collected-Keeps))
          collected-Keeps

    released :
        (s : S) (r : (String ⊎ Unit {0}) × S)
        → opened r.1 ≡ after r.0 (opened s)
        → opened (and_then r (λ _. deferred d.close (use_client quote env os d a {F = F} cf))).1
          ≡ opened s
    released s (inl e, t) h = h
    released s (inr c, t) h =
        counting.closes (use_client quote env os d a {F = F} cf t).1
        ∙ ap (λ k. k - 1) (use_client-Keeps t _ _ refl ∙ h)
        ∙ omega arith

    started :
        (cs : List Char) (s : S)
        → opened (with_bootstrap quote env os d a {F = F} cf cs s).1 ≡ opened s
    unfolding with_bootstrap
    started [] s = refl
    started (c ∷ cs) s =
        let banner = counting.notes _ s in released _ _ (connect-opened (config_of cf) _) ∙ banner

    -- A live collection leaves no connection open, however it ends: without bootstrap servers, at
    -- the connection, at the check of the rights, at a read of the cluster or with a snapshot.
    pub connect_and_collect-opened :
        (s : S) → opened (connect_and_collect quote env os d a {F = F} cf s).1 ≡ opened s
    unfolding connect_and_collect
    connect_and_collect-opened s = started (trim (runes cf.bootstrap)) s
