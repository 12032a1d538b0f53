-- ===== src/Ps2/Tests.antt =====
-- Runs of the PS/2 drivers.
use best_kernel.Base.{◌≡◌, refl, [], ◌∷◌, some, none, false}
use best_kernel.Ps2.{Controller, ps2_read_conf}
use best_kernel.Ps2.Devices.{Receiver}

abbrev silent : Controller
silent = record {
  status = 0 ∷ 1 ∷ 0 ∷ 1 ∷ [];
  data_bytes = 0xFA ∷ 0x30 ∷ [];
  written = [];
  shut_down = false;
  lines = λ i. none;
  length = 0;
}

abbrev receiver : Receiver
receiver = record {
  sigset = 8;
  retaction = 0;
  code = 0;
  packet = record {
    x = 0;
    y = 0;
    xaxis_overflow = 0;
    yaxis_overflow = 0;
    left_click = 0;
    right_click = 0;
    middle_click = 0;
  };
}

ps2_read_conf_runs :
    ps2_read_conf silent
    ≡ some (0x30, record silent { status = []; data_bytes = []; written = (0x20, 0x64) ∷ [] })
unfolding ps2_read_conf
ps2_read_conf_runs = refl
