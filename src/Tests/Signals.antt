-- ===== src/Tests/Signals.antt =====
-- What a request and a look at an order tell the telemetry client.
use fast_platform_modular.Base.{refl, none, All}
use fast_platform_modular.Errors.{ok}
use fast_platform_modular.Runtime.Signals.{metrics, IsMeasured}
use fast_platform_modular.Database.{no_rows}
use fast_platform_modular.App.{World, post_order, post_accept}
use fast_platform_modular.App.Signals.{call_signals, call_signals-IsMeasured}
use fast_platform_modular.App.Answered.{IsTruthful}
use fast_platform_modular.App.Jobs.{IsCallExpected, call_signals-IsTruthful}
use fast_platform_modular.Tests.Entry.{Entry}
use fast_platform_modular.Tests.Cache.{libraries, web_request, body}
use fast_platform_modular.Tests.Journey.{at}

abbrev pub world : World Entry
world = record { tables = no_rows; cache = none }

call_signals-IsMeasured_example :
    IsMeasured 4 (metrics (call_signals libraries (post_order at web_request (ok body)) world))
call_signals-IsMeasured_example =
    call_signals-IsMeasured libraries (post_order at web_request (ok body)) world

call_signals-IsTruthful_example :
    All
      (IsTruthful (IsCallExpected libraries (post_accept at web_request) world))
      (call_signals libraries (post_accept at web_request) world)
call_signals-IsTruthful_example =
    call_signals-IsTruthful libraries (post_accept at web_request) world (λ e. refl)
