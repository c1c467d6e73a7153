-- ===== src/Discoverer/Process/Certificate.antt =====
-- What the process leaves on disk, from its start on.
use dockerdynomesh.Prelude.{◌≡◌, Bool, List, some}
use dockerdynomesh.Text.{Text}
use dockerdynomesh.Inspect.{InspectResponse}
use dockerdynomesh.Discoverer.Reconcile.{State, list_eligible, reconcile}
use dockerdynomesh.Discoverer.Reconcile.Issued.{IsIssued}
use dockerdynomesh.Discoverer.Start.{Flags, Settings}
use dockerdynomesh.Discoverer.Start.Ready.{IsReady}
use dockerdynomesh.Discoverer.System.{World, Platform, services, Moves, Cert}
use dockerdynomesh.Discoverer.System.Deployed.{IsSound, Deployed}
use dockerdynomesh.Discoverer.Process.{Machine}
use dockerdynomesh.Discoverer.Reconcile.Settings.{SameSettings}

module _ {A Wire : Type 0} (p : Platform A Wire) (is_cancelled : Machine A → Bool)
    (discards : Bool) where
  -- The reconciler has the settings with which the process started.
  abbrev Configured : Settings → State (World A) → Type 0
  Configured settings s = SameSettings settings.reconciler s.reconciler

  module _ (sound : IsSound p) where
    abbrev IsIssuedIn : State (World A) → Type 0
    IsIssuedIn = IsIssued (services p) (Moves p) (Cert p)

    -- The world behind a reconcile of the state `s`, with the settings that the environment and the
    -- flags give.
    pub record IsDeployed (env : Text → Text) (f : Flags) (s : State (World A)) : Type 0 where
      pub settings : Settings
      pub ready : IsReady env f settings
      pub same : SameSettings settings.reconciler s.reconciler
      pub containers : List InspectResponse
      pub listed : (list_eligible (services p) s.world).0 ≡ some containers
      pub deployed : Deployed p sound containers s.reconciler (reconcile (services p) s).1.world
