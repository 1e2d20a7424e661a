-- ===== src/Logger/Laws.antt =====
-- Which messages of common/logger.c are written whole, cut, or past the end of the buffer.
use c_playground.Prelude.{
  ℕ, ◌+◌, ◌-◌, ◌^◌, ◌≤◌, ◌<◌, ◌≡◌, refl, sym, ap, ◌∙◌, true, false, Option, List, [], ◌++◌, arith,
  ltb, if◌then◌else◌, length, length-append, take, take-all, lt→ltb, dec_lt,
}
use mathlib.Core.List.{append_assoc}
use c_playground.Machine.{ℤ, pos, ltb_ℤ, Run, ok, undefined}
use c_playground.Logger.{
  msg_len, Piece, text, Log, print, append, terminate, write_piece, add_place, do_log_msg, log_msg,
}

write_piece-text :
    (msg t : List ℕ) (log : Log) (next : List ℕ → ℤ → Run Log)
    → length msg ≤ msg_len
    → length msg + length t < 2 ^ 31
    → write_piece msg (pos (length msg)) (text t) log next
      ≡ next (msg ++ take (msg_len - length msg - 1) t) (pos (length msg + length t))
unfolding write_piece append
write_piece-text msg t log next room small =
    let whole = take-all (length msg) msg (omega arith) in
    let fits : ltb msg_len (length msg) ≡ false = ground arith in
    rw (fits, whole) (ground (arith, small))

terminate-cases :
    (zc : Option ℕ) (msg place : List ℕ) (log : Log)
    → length msg < 8191
    → terminate zc
        (msg ++ take (msg_len - length msg - 1) place)
        (pos (length msg + length place))
        log
      ≡ (if ltb (length msg + length place) 8192
          then ok (print zc (msg ++ place) log)
          else undefined)
unfolding terminate
terminate-cases zc msg place log room = elim (dec_lt (length msg + length place) 8192) [
  | yes fits ↦
      let cut = take-all (msg_len - length msg - 1) place (omega (arith, fits)) in
      let all =
        take-all (length msg + length place) (msg ++ place)
          (omega (arith, length-append msg place)) in
      rw (lt→ltb (length msg + length place) 8192 fits, cut, all) refl
  | no over ↦ let test : ltb (length msg + length place) 8192 ≡ false = ground arith in rw test refl
]

add_place-cases :
    (zc : Option ℕ) (msg place : List ℕ) (log : Log)
    → length msg < 8191
    → length place < 2 ^ 30
    → add_place zc true (text place) log msg (pos (length msg)) ≡ (
        if ltb (length msg + length place) 8192
        then ok (print zc (msg ++ place) log)
        else undefined)
unfolding add_place
add_place-cases zc msg place log room small = rw (lt→ltb (length msg) 8191 room) (
    write_piece-text msg place log (λ msg' sum. terminate zc msg' sum log) (omega arith)
      (omega arith)
    ∙ terminate-cases zc msg place log room)

add_place-full :
    (zc : Option ℕ) (n : ℕ) (msg place : List ℕ) (log : Log)
    → 8191 ≤ n
    → add_place zc true (text place) log msg (pos n) ≡ ok (print zc msg log)
unfolding add_place
add_place-full zc n msg place log full =
    let test : ltb n 8191 ≡ false = ground arith in rw test refl

-- The level passes both tests, and the tag is written.
tagged :
    (zc : Option ℕ) (level : ℕ) (tag : List ℕ) (body place : Piece) (log : Log)
    → level ≤ 4
    → ltb_ℤ log.default_log_level (pos level) ≡ false
    → length tag ≡ 8
    → log_msg zc (pos level) true (record { level = text tag; body = body; place = place }) log
      ≡ write_piece tag (pos (length tag)) body log (add_place zc true place log)
unfolding log_msg do_log_msg
tagged zc level tag body place log range on eight =
    let low : ltb level 0 ≡ false = ground arith in
    let high : ltb 4 level ≡ false = ground arith in
    let start : 0 + length tag ≡ length tag = omega arith in
    rw (on, low, high)
      (write_piece-text [] tag log
          (λ msg sum. write_piece msg sum body log (add_place zc true place log)) (omega arith)
          (omega (arith, eight))
        ∙ ap (λ t. write_piece t (pos (0 + length tag)) body log (add_place zc true place log))
            (take-all 8191 tag (omega (arith, eight)))
        ∙ ap (λ n. write_piece tag (pos n) body log (add_place zc true place log)) start)

-- A message of one of the levels 0 to 4, and of a level at most the logger's, whose tag, body and
-- place are formatted, with body and place below 2^30 characters together. A body that
-- fills the buffer is cut to 8191 characters and the place is left out; a message that fits is
-- written whole; and when only the place does not fit, the terminator is written PAST the buffer.
pub log_msg-cases :
    (zc : Option ℕ) (level : ℕ) (tag body place : List ℕ) (log : Log)
    → level ≤ 4
    → ltb_ℤ log.default_log_level (pos level) ≡ false
    → length tag ≡ 8
    → length body + length place < 2 ^ 30
    → log_msg zc
        (pos level)
        true
        (record { level = text tag; body = text body; place = text place })
        log
      ≡ (if ltb (8 + length body) 8191
          then if ltb (8 + length body + length place) 8192
            then ok (print zc (tag ++ body ++ place) log)
            else undefined
          else ok (print zc (tag ++ take 8183 body) log))
log_msg-cases zc level tag body place log range on eight small =
    tagged zc level tag (text body) (text place) log range on eight
    ∙ write_piece-text tag body log (add_place zc true (text place) log) (omega (arith, eight))
        (omega (arith, eight, small))
    ∙ elim (dec_lt (8 + length body) 8191) [
      | yes fits ↦
          let cut = take-all (msg_len - length tag - 1) body (omega (arith, eight, fits)) in
          let count : length tag + length body ≡ length (tag ++ body) =
            sym (length-append tag body) in
          let size : length (tag ++ body) ≡ 8 + length body =
            omega (arith, length-append tag body, eight) in
          rw (cut, count, lt→ltb (8 + length body) 8191 fits)
            (add_place-cases zc (tag ++ body) place log (omega (arith, size, fits))
                (omega (arith, small))
              ∙ rw (size, append_assoc tag body place) refl)
      | no full ↦
          let test : ltb (8 + length body) 8191 ≡ false = ground arith in
          let left : msg_len - length tag - 1 ≡ 8183 = omega (arith, eight) in
          rw (test, left)
            (add_place-full zc (length tag + length body) (tag ++ take 8183 body) place log
              (omega (arith, eight, full)))
    ]
