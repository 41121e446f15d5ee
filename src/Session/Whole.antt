-- ===== src/Session/Whole.antt =====
-- What a whole run leaves: no resource, and a closed ring.
use remy_desk.Base.{ℕ, ◌+◌, ◌≡◌, ◌⊎◌, Bool, none, some, List, []}
use remy_desk.Ring.{Ring}
use remy_desk.Ring.Init
use remy_desk.Ring.Init.{takes, returns}
use remy_desk.Import.{Resource}
use remy_desk.Import.Balance.{taken, given}
use remy_desk.Options.Command.{StreamOptions}
use remy_desk.Session.{Env, Session}
use remy_desk.Session.Setup.{SetupCalls, set_up}
use remy_desk.Session.Run.{Finished}
use remy_desk.Session.Held.{packets}

-- Of a kind `f`, all is given back, or all but a packet buffer and its group behind an exit of 1.
abbrev pub Clean : (Resource → Bool) → Finished → Type 0
Clean f x =
    (taken f x.actions ≡ given f x.actions)
    ⊎ ((g p : ℕ) × (x.exit_code ≡ 1)
        × (taken f x.actions ≡ given f (packets g p) + given f x.actions))

-- The writer's descriptors and mapping, of which the set-up of the writer has taken `taken`, and the
-- descriptor that it was given: all stay where the set-up of the run fails, else none does.
abbrev pub WriterClean : Env → SetupCalls → StreamOptions → List Init.Resource → Finished → Type 0
WriterClean e c o taken x =
    (((set_up e c o).0 ≡ none) × (x.exit_code ≡ 1) × (x.writer_actions ≡ []))
    ⊎ ((s : Session) × ((set_up e c o).0 ≡ some s)
        × (returns x.writer_actions + returns taken ≡ takes taken + 1))
