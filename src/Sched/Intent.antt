-- ===== src/Sched/Intent.antt =====
-- sched/intent.h: the scheduling intents, and the reading of a raw number as one.
use capaz_os_kernel.Common.{ℕ, ◌==◌, if◌then◌else◌}

pub data Intent : Type 0 where
  interactive latency throughput background : Intent

-- The numbers of the enumeration.
abbrev pub intent_index : Intent → ℕ
intent_index interactive = 0
intent_index latency = 1
intent_index throughput = 2
intent_index background = 3

-- What is not below SCHED_INTENT_COUNT is BACKGROUND.
unfoldable pub sched_intent_sanitize : ℕ → Intent
sched_intent_sanitize raw =
    if raw == 0
    then interactive
    else if raw == 1
    then latency
    else if raw == 2
    then throughput
    else background
