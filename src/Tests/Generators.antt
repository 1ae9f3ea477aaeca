-- ===== src/Tests/Generators.antt =====
-- The generator of events: a broker that accepts all, and ticks beyond COUNT.
use rule_engine.Prelude.{ℕ, ◌≤◌, ◌≡◌, ◌⊎◌, refl, List, [], ◌∷◌, none, some, ℤ, pos, length}
use rule_engine.Prelude.{◌==◌, if◌then◌else◌}
use rule_engine.Text.{Text, text_eq, bytes}
use rule_engine.Engine.Producer.{publish_failed}
use rule_engine.Generator.{
  GeneratorSettings, read_generator_settings, ticker_interval, Tick, generate,
}
use rule_engine.Generator.Sent.{Publish, accepting, generate-sent}
use rule_engine.Tests.Program.{program}
use rule_engine.Tests.Samples.{at_second}

-- COUNT=2 and a rate of 1000 a second
abbrev environment : Text → Text
environment key =
    if key == bytes "COUNT" then bytes "2" else if key == bytes "RATE" then bytes "1000" else []

abbrev settings : GeneratorSettings
settings = read_generator_settings environment

abbrev tick_at : ℕ → Tick ℤ
tick_at n = record { now = at_second n; drawn = n; amount = pos n; event_id = b'e' ∷ n ∷ [] }

abbrev ticks : List (Tick ℤ)
ticks = tick_at 1 ∷ tick_at 2 ∷ tick_at 3 ∷ []

abbrev accept_all : Publish ℤ (List Text)
accept_all log event = (event.member_id ∷ log, none)

two_sent : generate accept_all settings [] 0 ticks ≡ (bytes "user-0003" ∷ bytes "user-0002" ∷ [], 2)
unfolding program
two_sent = refl

every_millisecond : ticker_interval settings.rate ≡ some 1_000_000
unfolding program
every_millisecond = refl

-- a broker that refuses the member user-0002
abbrev picky : Publish ℤ (List Text)
picky log event =
    if event.member_id == bytes "user-0002"
    then (log, some publish_failed)
    else (event.member_id ∷ log, none)

count_two : settings.count ≡ pos 2
unfolding program
count_two = refl

generate-sent_example :
    ((generate (accepting picky) settings ([], 0, 0) 0 ticks).0.1
      ≡ (generate (accepting picky) settings ([], 0, 0) 0 ticks).1)
    × ((generate (accepting picky) settings ([], 0, 0) 0 ticks).1 ≤ 2)
    × (((generate (accepting picky) settings ([], 0, 0) 0 ticks).1 ≡ 2)
        ⊎ ((generate (accepting picky) settings ([], 0, 0) 0 ticks).0.2 ≡ length ticks))
generate-sent_example = generate-sent settings picky [] 1 ticks count_two
