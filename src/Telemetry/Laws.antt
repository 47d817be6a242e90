-- ===== src/Telemetry/Laws.antt =====
-- One instance of everything for the whole process.
use authzmtls.Common.{◌≡◌, ◌≢◌, refl, subst, true, List, [], ◌∷◌, none, some, Result, ok}
use authzmtls.Telemetry.{
  Otel, Telemetry, unused, scope_name, built, ensure_init, Access, meter_provider, handler, meter,
  shutdown, Outcome, gave_provider, gave_handler, gave_meter, shut, access, accesses,
}

module _ {Reg X P H M W : Type 0} (otel : Otel Reg X P H M W) where
  -- The one instance of each.
  pub record Instance : Type 0 where
    pub provider : P
    pub handler : H
    pub meter : M

  -- A call from the world `w` once the instance is there, with what it gives and the world that it
  -- leaves. Only a shutdown changes the world.
  abbrev pub Uses : Instance → Access otel → W → Outcome otel → W → Type 0
  Uses x meter_provider w o w' = (o ≡ gave_provider (some x.provider)) × (w' ≡ w)
  Uses x handler w o w' = (o ≡ gave_handler (some x.handler)) × (w' ≡ w)
  Uses x meter w o w' = (o ≡ gave_meter (some x.meter)) × (w' ≡ w)
  Uses x shutdown w o w' =
      (o ≡ shut (otel.shut_down x.provider w).0) × (w' ≡ (otel.shut_down x.provider w).1)

  -- Calls from then on.
  pub data AllUse (x : Instance) : List (Access otel) → W → List (Outcome otel) → Type 0 where
    no_use : {w : W} → AllUse x [] w []
    use_again :
        {a : Access otel} {calls : List (Access otel)} {o : Outcome otel}
        {outcomes : List (Outcome otel)} {w w' : W}
        → Uses x a w o w'
        → AllUse x calls w' outcomes
        → AllUse x (a ∷ calls) w (o ∷ outcomes)

  abbrev state_of : Instance → Telemetry P H M
  state_of x = record {
    done = true;
    provider = some x.provider;
    handler = some x.handler;
    meter = some x.meter;
  }

  access-Uses :
      (x : Instance) (a : Access otel) (w : W)
      → Uses x a w (access otel a (state_of x) w).0 (access otel a (state_of x) w).2
        × ((access otel a (state_of x) w).1 ≡ state_of x)
  unfolding access
  access-Uses x meter_provider w = ((refl, refl), refl)
  access-Uses x handler w = ((refl, refl), refl)
  access-Uses x meter w = ((refl, refl), refl)
  access-Uses x shutdown w = ((refl, refl), refl)

  accesses-AllUse :
      (x : Instance) (calls : List (Access otel)) (w : W) (t : Telemetry P H M)
      → t ≡ state_of x
      → AllUse x calls w (accesses otel calls t w)
  unfolding accesses
  accesses-AllUse x [] w t e = no_use
  accesses-AllUse x (a ∷ calls) w t e =
      let (uses, same) = access-Uses x a w in
      rw e (use_again uses (accesses-AllUse x calls _ _ same))

  abbrev pub exporter_at : W → Result X × W
  exporter_at w = let (reg, w') = otel.new_registry w in otel.new_exporter reg w'

  abbrev pub provider_at : W → X → P × W
  provider_at w exporter = otel.new_provider (exporter ∷ []) (exporter_at w).1

  -- What the first call that needs it builds in the world `w`, and the world that it leaves.
  abbrev pub instance_at : W → X → Instance
  instance_at w exporter = record {
    provider = (provider_at w exporter).0;
    handler = otel.handler_for (otel.new_registry w).0;
    meter = otel.meter_of (provider_at w exporter).0 scope_name;
  }

  abbrev pub built_world : W → X → W
  built_world w exporter =
      let (provider, w') = provider_at w exporter in (otel.start_runtime provider w').1

  -- What a call that is no shutdown gives from the instance.
  abbrev pub Gives : Instance → Access otel → Outcome otel → Type 0
  Gives x meter_provider o = o ≡ gave_provider (some x.provider)
  Gives x handler o = o ≡ gave_handler (some x.handler)
  Gives x meter o = o ≡ gave_meter (some x.meter)
  Gives x shutdown o = ⊥

  -- Calls from the start of the process, in the world `w`, whose exporter is `exporter`.
  pub data Begins (w : W) (exporter : X) : List (Access otel) → List (Outcome otel) → Type 0 where
    no_call : Begins w exporter [] []
    -- A shutdown with nothing to shut down.
    idle_shutdown :
        {calls : List (Access otel)} {outcomes : List (Outcome otel)}
        → Begins w exporter calls outcomes
        → Begins w exporter (shutdown ∷ calls) (shut none ∷ outcomes)
    -- The call that builds.
    first_use :
        {a : Access otel} {calls : List (Access otel)} {o : Outcome otel}
        {outcomes : List (Outcome otel)}
        → Gives (instance_at w exporter) a o
        → AllUse (instance_at w exporter) calls (built_world w exporter) outcomes
        → Begins w exporter (a ∷ calls) (o ∷ outcomes)

  first-Gives :
      (a : Access otel) (w : W) (exporter : X)
      → a ≢ shutdown
      → (exporter_at w).0 ≡ ok exporter
      → Gives (instance_at w exporter) a (access otel a unused w).0
        × ((access otel a unused w).1 ≡ state_of (instance_at w exporter))
        × ((access otel a unused w).2 ≡ built_world w exporter)
  unfolding access ensure_init built
  first-Gives meter_provider w exporter n e = rw e (refl, refl, refl)
  first-Gives handler w exporter n e = rw e (refl, refl, refl)
  first-Gives meter w exporter n e = rw e (refl, refl, refl)
  first-Gives shutdown w exporter n e = absurd (n refl)

  first-Begins :
      (a : Access otel) (calls : List (Access otel)) (w : W) (exporter : X)
      → a ≢ shutdown
      → (exporter_at w).0 ≡ ok exporter
      → Begins w exporter (a ∷ calls) (accesses otel (a ∷ calls) unused w)
  unfolding accesses
  first-Begins a calls w exporter n e =
      let (gives, ready, world) = first-Gives a w exporter n e in
      let x = instance_at w exporter in
      first_use gives (
        subst
          (λ v.
            AllUse x calls v
              (accesses otel calls (access otel a unused w).1 (access otel a unused w).2))
          world
          (accesses-AllUse x calls (access otel a unused w).2 (access otel a unused w).1 ready))

  -- Whatever calls of the package's four functions come one after the other, if the exporter can be
  -- constructed: the shutdowns that come before every other call give no error and leave the state
  -- and the world as they are; the first other call builds the provider, the handler and the meter,
  -- once, from the world of the start; each later call of MeterProvider, Handler and Meter gives the
  -- same ones and changes nothing; and each later shutdown is that of the one provider.
  pub accesses-Begins :
      (calls : List (Access otel)) (w : W) (exporter : X)
      → (exporter_at w).0 ≡ ok exporter
      → Begins w exporter calls (accesses otel calls unused w)
  unfolding accesses access
  accesses-Begins [] w exporter e = no_call
  accesses-Begins (shutdown ∷ calls) w exporter e =
      idle_shutdown (accesses-Begins calls w exporter e)
  accesses-Begins (meter_provider ∷ calls) w exporter e =
      first-Begins meter_provider calls w exporter (λ h. cc) e
  accesses-Begins (handler ∷ calls) w exporter e = first-Begins handler calls w exporter (λ h. cc) e
  accesses-Begins (meter ∷ calls) w exporter e = first-Begins meter calls w exporter (λ h. cc) e
