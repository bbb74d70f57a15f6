-- ===== src/Control/Firmware/Upload.antt =====
-- What loading the firmware sends to the HAT, and that it ends once the three prompts are there.
use tuw_spike.Base.{
  ◌≡◌, refl, ap, ◌∙◌, List, [], ◌∷◌, ◌++◌, append_assoc, some, All, true, false, ne→==, length,
}
use tuw_spike.Base.Text.{Bytes, bytes}
use tuw_spike.Control.Status.Process.{NoNewline}
use tuw_spike.Base.Decimal.{to_string}
use tuw_spike.Control.Checksum.{checksum}
use tuw_spike.Control.Machine.{
  Serial, PortLaws, World, Reply, delivered, Stop, returns, getline, read_line_from, contains,
}
use tuw_spike.Control.Firmware.{
  cr, stx, etx_cr, prompt_loop, get_prompt, load_command, signature_command, upload, load_firmware,
}

getline-line : (line rest : Bytes) → NoNewline line → getline (line ++ b'\n' ∷ rest) ≡ (line, rest)
unfolding getline
getline-line [] rest h = refl
getline-line (c ∷ line) rest h = rw (ne→== c b'\n' h.0, getline, getline-line line rest h.1)

-- What the HAT says until it is ready again: lines without the prompt, and one with it.
pub record Answer : Type 0 where
  pub chatter : List Bytes
  pub prompt : Bytes

abbrev Quiet : Bytes → Type 0
Quiet line = NoNewline line × (contains (bytes "BHBL>") line ≡ false)

pub record IsAnswer (a : Answer) : Type 0 where
  pub before : All Quiet a.chatter
  pub one_line : NoNewline a.prompt
  pub ready : contains (bytes "BHBL>") a.prompt ≡ true

abbrev pub lines : List Bytes → List Reply → List Reply
lines [] more = more
lines (l ∷ ls) more = delivered (l ++ b'\n' ∷ []) ∷ lines ls more

abbrev pub answers : List Answer → List Reply → List Reply
answers [] more = more
answers (a ∷ as') more = lines a.chatter (lines (a.prompt ∷ []) (answers as' more))

module _ {R Port : Type 0} where
  prompt_loop-lines :
      (chatter : List Bytes) (prompt : Bytes) (more : List Reply) (w : World R Port)
      → All Quiet chatter
      → NoNewline prompt
      → contains (bytes "BHBL>") prompt ≡ true
      → w.streambuf ≡ []
      → prompt_loop (lines chatter (lines (prompt ∷ []) more)) w
        ≡ (returns tt, record w { replies = more; streambuf = [] })
  unfolding prompt_loop read_line_from
  prompt_loop-lines [] prompt more w hq hp found empty =
      rw (empty, getline-line prompt [] hp, found)
  prompt_loop-lines (l ∷ ls) prompt more w hq hp found empty =
      rw (empty, getline-line l [] hq.0.0, hq.0.1)
        (prompt_loop-lines ls prompt more
          (record w { replies = lines ls (lines (prompt ∷ []) more); streambuf = [] }) hq.1 hp found
          refl)

  -- `getPrompt` passes over the lines before the prompt and returns behind it.
  get_prompt-Answer :
      (a : Answer) (more : List Reply) (w : World R Port)
      → IsAnswer a
      → w.streambuf ≡ []
      → w.replies ≡ lines a.chatter (lines (a.prompt ∷ []) more)
      → get_prompt w ≡ (returns tt, record w { replies = more; streambuf = [] })
  unfolding get_prompt
  get_prompt-Answer a more w h empty e =
      ap (λ (rs : List Reply). prompt_loop rs w) e
      ∙ prompt_loop-lines a.chatter a.prompt more w h.before h.one_line h.ready empty

module _ (R : Type 0) (serial : Serial) (laws : PortLaws serial) where
  open laws use {is_open, log, write_open}

  -- The messages that an upload sends.
  abbrev pub upload_log : Bytes → Bytes → List Bytes
  upload_log command image = command ∷ (2 ∷ []) ∷ image ∷ (3 ∷ 13 ∷ []) ∷ []

  abbrev Sent :
      (w : World R serial.Port)
      → Stop (Unit {0}) × World R serial.Port
      → List Bytes
      → List Reply
      → Type 0
  Sent w r messages more =
      (q : serial.Port) × (r ≡ (returns tt, record w { port = q; replies = more; streambuf = [] }))
      × (is_open q ≡ true)
      × (log q ≡ log w.port ++ messages)

  upload-Sent :
      (command image : Bytes) (a : Answer) (more : List Reply) (w : World R serial.Port)
      → IsAnswer a
      → is_open w.port ≡ true
      → w.streambuf ≡ []
      → w.replies ≡ lines a.chatter (lines (a.prompt ∷ []) more)
      → Sent w (upload R serial command image w) (upload_log command image) more
  unfolding upload
  upload-Sent command image a more w h open_ empty e =
      let (p1, s1, o1, l1) = write_open command w.port open_ in
      let (p2, s2, o2, l2) = write_open stx p1 o1 in
      let (p3, s3, o3, l3) = write_open image p2 o2 in
      let (p4, s4, o4, l4) = write_open etx_cr p3 o3 in
      (
        p4,
        rw (s1, s2, s3, s4) (get_prompt-Answer a more (record w { port = p4 }) h empty e),
        o4,
        simp (l4, l3, l2, l1, append_assoc),
      )

  -- All that is sent while the firmware is loaded.
  abbrev pub transcript : Bytes → Bytes → List Bytes
  transcript firmware signature =
      bytes "clear\r"
      ∷ (upload_log
            (bytes "load "
              ++ (to_string (length firmware)
                  ++ (bytes " " ++ (to_string (checksum firmware) ++ bytes "\r"))))
            firmware
          ++ (upload_log (bytes "signature " ++ (to_string (length signature) ++ bytes "\r"))
                signature
              ++ bytes "reboot\r" ∷ []))

  -- With both files present, an open port, and a HAT that answers with a prompt to the clearing and
  -- to each of the two uploads, whatever it says before each prompt, `loadFirmware` returns. It has
  -- then sent exactly the transcript, with the sizes and the checksum of the files, and has read
  -- exactly the three answers.
  pub load_firmware-transcript :
      (firmware signature : Bytes) (first second third : Answer) (more : List Reply)
      (w : World R serial.Port)
      → IsAnswer first
      → IsAnswer second
      → IsAnswer third
      → is_open w.port ≡ true
      → w.streambuf ≡ []
      → w.replies ≡ answers (first ∷ second ∷ third ∷ []) more
      → (q : serial.Port) × (load_firmware R serial
            (record { firmware = some firmware; signature = some signature })
            w
          ≡ (returns tt, record w { port = q; replies = more; streambuf = [] }))
        × (is_open q ≡ true)
        × (log q ≡ log w.port ++ transcript firmware signature)
  unfolding load_firmware
  load_firmware-transcript firmware signature first second third more w h1 h2 h3 open_ empty e =
      let (p1, s1, o1, l1) = write_open (bytes "clear" ++ cr) w.port open_ in
      let prompted =
        get_prompt-Answer first (answers (second ∷ third ∷ []) more) (record w { port = p1 }) h1
          empty e in
      let (p2, s2, o2, l2) =
        upload-Sent (load_command R serial firmware (length firmware)) firmware second
          (answers (third ∷ []) more)
          (record w { port = p1; replies = answers (second ∷ third ∷ []) more; streambuf = [] }) h2
          o1 refl refl in
      let (p3, s3, o3, l3) =
        upload-Sent (signature_command R serial (length signature)) signature third more
          (record w { port = p2; replies = answers (third ∷ []) more; streambuf = [] }) h3 o2 refl
          refl in
      let (p4, s4, o4, l4) = write_open (bytes "reboot" ++ cr) p3 o3 in
      (p4, rw (s1, prompted, s2, s3, s4), o4, simp (l4, l3, l2, l1, append_assoc))
