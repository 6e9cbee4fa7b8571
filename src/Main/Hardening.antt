-- ===== src/Main/Hardening.antt =====
-- The options of the two servers of the manager that the program's start makes.
use ansible_operator.Base.{ℕ, ◌≡◌, false, List, [], ◌∷◌, All, arith}
use ansible_operator.Kube.{Platform}
use ansible_operator.Manager.{Manager, TlsConfig, ManagerOptions}
use ansible_operator.Manager.Calls.{Call, Startup, new_manager}
use ansible_operator.Main.Options.{
  Flags, disable_http2, tls_opts, webhook_server_options, metrics_server_options, manager_options,
}
use ansible_operator.Main.Order.{
  Plan, plan, Follows, finished, succeeds, fails, panics, run-Follows,
}
use ansible_operator.Main.{run}

-- What a server makes of its options: each changes the configuration that the ones before left.
abbrev pub configured : List (TlsConfig → TlsConfig) → TlsConfig → TlsConfig
configured [] c = c
configured (f ∷ fs) c = configured fs (f c)

-- HTTP/1.1 is all that the server offers, whatever the configuration was.
abbrev pub OnlyHttp1 : List (TlsConfig → TlsConfig) → Type 0
OnlyHttp1 opts = (c : TlsConfig) → (configured opts c).next_protos ≡ "http/1.1" ∷ []

pub record Hardened (flags : Flags) (o : ManagerOptions) : Type 0 where
  pub webhook_only_http1 : OnlyHttp1 o.webhook_server.webhook_tls_opts
  pub metrics_only_http1 : OnlyHttp1 o.metrics.tls_opts
  -- The metrics are served over TLS and to authenticated clients, or neither.
  pub guarded : o.metrics.authenticates ≡ o.metrics.secure_serving
  pub secure : o.metrics.secure_serving ≡ flags.secure_metrics

OnlyHttp1-tls_opts : (flags : Flags) → flags.enable_http2 ≡ false → OnlyHttp1 (tls_opts flags)
unfolding tls_opts disable_http2
OnlyHttp1-tls_opts flags off c = rw off

manager_options-Hardened :
    (flags : Flags) → flags.enable_http2 ≡ false → Hardened flags (manager_options flags)
unfolding manager_options webhook_server_options metrics_server_options
manager_options-Hardened flags off = record {
  webhook_only_http1 = ground (arith, OnlyHttp1-tls_opts flags off);
  metrics_only_http1 = ground (arith, OnlyHttp1-tls_opts flags off);
  guarded = ground arith;
  secure = ground arith;
}

module _ {P : Platform} (M : Manager P) where
  -- of a call that makes a manager
  abbrev pub Makes : (ManagerOptions → Type 0) → Call P → Type 0
  Makes Q (new_manager o) = Q o
  Makes Q call = Unit

  abbrev AllOf : (Call P → Type 0) → Plan P → Type 0
  AllOf Q [] = Unit
  AllOf Q ((call, _) ∷ rest) = Q call × AllOf Q rest

  Follows-All :
      (Q : Call P → Type 0) (p : Plan P) (s t : Startup M) (status : ℕ)
      → AllOf Q p
      → All Q s.calls
      → Follows M p s status t
      → All Q t.calls
  Follows-All Q [] s t status pos old finished = old
  Follows-All Q ((call, k) ∷ rest) s t status (q, qs) old (succeeds e f) =
      Follows-All Q rest _ t status qs (q, old) f
  Follows-All Q ((call, k) ∷ rest) s t status (q, qs) old (fails _ e) = (q, old)
  Follows-All Q ((call, k) ∷ rest) s t status (q, qs) old (panics e) = (q, old)

  -- Where HTTP/2 is not enabled, every manager that a start of the program makes has a webhook server
  -- and a metrics server that offer HTTP/1.1 alone, whatever the TLS configuration was before, and
  -- serves the metrics over TLS and with authentication exactly if the flags say so; this holds
  -- whether the start fails or not.
  pub run-Hardened :
      (flags : Flags) (s : Startup M)
      → flags.enable_http2 ≡ false
      → s.calls ≡ []
      → All (Makes (Hardened flags)) (run M flags s).1.calls
  run-Hardened flags s off fresh =
      let hard = manager_options-Hardened flags off in
      Follows-All (Makes (Hardened flags)) (plan P flags) s _ _
        (tt, (tt, (tt, (hard, (grind arith))))) (rw fresh tt) (run-Follows M flags s)
