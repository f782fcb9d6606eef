-- ===== src/Cbor/Utf8.antt =====
-- `core::str::from_utf8` as crates/sidevers-core/src/cbor.rs calls it: the well-formed byte
-- sequences of the Unicode standard (table 3-7), read by an automaton, one byte at a time.
use sidevers_protocol.Common.{
  ℕ, Bool, true, false, ◌&&◌, ◌==◌, List, [], ◌∷◌, leb, ltb, if◌then◌else◌,
}

-- What the automaton waits for. `tail n` is n more continuation bytes; the others name the lead
-- byte whose second byte has a range of its own.
pub data Utf8State : Type 0 where
  start one two three after_e0 after_ed after_f0 after_f4 bad : Utf8State

abbrev within : ℕ → ℕ → ℕ → Bool
within lo hi b = leb lo b && leb b hi

lead : ℕ → Utf8State
lead b =
    if ltb b 0x80
    then start
    else if within 0xc2 0xdf b
    then one
    else if b == 0xe0
    then after_e0
    else if b == 0xed
    then after_ed
    else if within 0xe1 0xef b
    then two
    else if b == 0xf0
    then after_f0
    else if within 0xf1 0xf3 b
    then three
    else if b == 0xf4
    then after_f4
    else bad

utf8_step : Utf8State → ℕ → Utf8State
unfolding lead
utf8_step start b = lead b
utf8_step one b = if within 0x80 0xbf b then start else bad
utf8_step two b = if within 0x80 0xbf b then one else bad
utf8_step three b = if within 0x80 0xbf b then two else bad
utf8_step after_e0 b = if within 0xa0 0xbf b then one else bad
utf8_step after_ed b = if within 0x80 0x9f b then one else bad
utf8_step after_f0 b = if within 0x90 0xbf b then two else bad
utf8_step after_f4 b = if within 0x80 0x8f b then two else bad
utf8_step bad b = bad

utf8_run : Utf8State → List ℕ → Utf8State
unfolding utf8_step
utf8_run s [] = s
utf8_run s (b ∷ bs) = utf8_run (utf8_step s b) bs

accepts : Utf8State → Bool
accepts start = true
accepts _ = false

unfoldable pub valid_utf8 : List ℕ → Bool
unfolding utf8_run accepts
valid_utf8 bs = accepts (utf8_run start bs)
