-- ===== src/Update/Ends.antt =====
-- How an update ends: refused with nothing touched, or carried out by an owner that it can update.
use tools_installer.Base.{◌≡◌, true, ◌⊎◌}
use tools_installer.Model.{Tool}
use tools_installer.Session.{ManagerOwnership, UpdateOutcome, updated, update_failed}
use tools_installer.Session.Effect.{Except, returned}
use tools_installer.Update.Tame.{is_updatable}

-- What an update that is not refused gives
abbrev pub IsSettled : Tool → ManagerOwnership → Except UpdateOutcome → Type 0
IsSettled tool o result =
    (r : UpdateOutcome) × (result ≡ returned r)
    × (r.tool_id ≡ tool.id)
    × (r.owner ≡ o.owner)
    × (((r.status ≡ updated) × (is_updatable o.owner ≡ true)) ⊎ (r.status ≡ update_failed))
