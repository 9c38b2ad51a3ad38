-- ===== src/Hook/Active/Alive.antt =====
-- Which rooms are found alive.
use minara_connect.Base.{
  parse_unsigned, AnyOf, ℕ, ◌^◌, ◌≤◌, ◌<◌, ◌≡◌, ◌↔◌, refl, ap, inl, inr, arith, true, false, ◌&&◌,
  ◌==◌, leb, ltb, some, List, [], ◌∷◌, Option-cases, Bool-cases, Str, trim, ok,
}
use minara_connect.Hook.Active.{
  Signalled, delivered, no_such_process, refused, is_delivered, Entry, ActiveDir, topic_of_file,
  parse_pid, is_alive, scan, enumerate_active_rooms,
}

module _ (kill : ℕ → Signalled) where
  -- The file holds the number of a process in the valid range that takes a signal.
  pub record IsLive (entry : Entry) : Type 0 where
    pub raw : Str
    pub has_content : entry.content ≡ some raw
    pub pid : ℕ
    pub has_pid : parse_unsigned (trim raw) ≡ some pid
    pub in_range : (100 ≤ pid) × (pid < 2 ^ 31)
    pub is_running : kill pid ≡ delivered

  delivered_iff : (s : Signalled) → (is_delivered s ≡ true) ↔ (s ≡ delivered)
  delivered_iff delivered = (λ h. refl, λ h. refl)
  delivered_iff no_such_process = (λ h. absurd (ground arith), λ h. absurd (ground arith))
  delivered_iff refused = (λ h. absurd (ground arith), λ h. absurd (ground arith))

  is_alive-IsLive : (entry : Entry) → is_alive kill entry ≡ true → IsLive entry
  unfolding is_alive parse_pid
  is_alive-IsLive entry h = elim (Option-cases entry.content) [
    | inl e ↦ absurd (let h' = rw (e, is_alive) at h in ground arith)
    | inr (raw, e) ↦ elim (Option-cases (parse_unsigned (trim raw))) [
      | inl p ↦ absurd (let h' = rw (e, p, is_alive, parse_pid) at h in ground arith)
      | inr (pid, p) ↦ elim (Bool-cases (leb 100 pid && ltb pid (2 ^ 31))) [
        | inr out ↦
            absurd (
              let h' = rw (e, p, is_alive, parse_pid) at h in
              let h'' = rw out at h' in ground arith)
        | inl fits ↦
            let h' = rw (e, p, is_alive, parse_pid) at h in
            let h'' = rw fits at h' in
            record {
              raw = raw;
              has_content = e;
              pid = pid;
              has_pid = p;
              in_range = (ground arith, ground arith);
              is_running = (delivered_iff (kill pid)).0 h'';
            }
      ]
    ]
  ]

  IsLive-is_alive : (entry : Entry) → IsLive entry → is_alive kill entry ≡ true
  unfolding is_alive parse_pid
  IsLive-is_alive entry l =
      let low : leb 100 l.pid ≡ true = let r = l.in_range.0 in ground arith in
      let high : ltb l.pid (2 ^ 31) ≡ true = let r = l.in_range.1 in ground arith in
      rw (l.has_content, l.has_pid, is_alive, parse_pid) (rw (low, high, l.is_running) refl)

  -- the entry is that of the room, whose daemon is alive
  abbrev pub IsRoom : Str → Entry → Type 0
  IsRoom topic entry = (topic_of_file entry.name ≡ some topic) × IsLive entry

  abbrev IsIn : Str → List Str → Type 0
  IsIn topic topics = AnyOf (λ t. t ≡ topic) topics

  scan_iff :
      (topic : Str) (entries : List Entry)
      → IsIn topic (scan kill entries).0 ↔ AnyOf (IsRoom topic) entries
  unfolding scan
  scan_iff topic [] = (λ h. h, λ h. h)
  scan_iff topic (entry ∷ entries) =
      let (to, from) = scan_iff topic entries in
      elim (Option-cases (topic_of_file entry.name)) [
        | inl e ↦
            rw (e, scan)
              (
                λ h. inr (to h),
                λ h. elim h [ inl room ↦ absurd (ground (arith, room.0)) | inr later ↦ from later ],
              )
        | inr (t, e) ↦ elim (Bool-cases (is_alive kill entry)) [
          | inl alive ↦
              rw (e, alive, scan)
                (
                  λ h. elim h [
                    | inl same ↦ inl (ap some same, is_alive-IsLive entry alive)
                    | inr later ↦ inr (to later)
                  ],
                  λ h. elim h [
                    | inl room ↦ inl (let k = room.0 in ground arith)
                    | inr later ↦ inr (from later)
                  ],
                )
          | inr dead ↦
              rw (e, dead, scan)
                (
                  λ h. inr (to h),
                  λ h. elim h [
                    | inl room ↦ absurd (let k = IsLive-is_alive entry room.1 in ground arith)
                    | inr later ↦ from later
                  ],
                )
        ]
      ]

  -- What a scan leaves, a second scan leaves as it is, and finds the same rooms in.
  scan-scan :
      (entries : List Entry)
      → scan kill (scan kill entries).1 ≡ ((scan kill entries).0, (scan kill entries).1)
  unfolding scan
  scan-scan [] = refl
  scan-scan (entry ∷ entries) = elim (Option-cases (topic_of_file entry.name)) [
    | inl e ↦ rw (e, scan) (rw (e, scan-scan entries, scan) refl)
    | inr (t, e) ↦ elim (Bool-cases (is_alive kill entry)) [
      | inl alive ↦ rw (e, alive, scan) (rw (e, alive, scan-scan entries, scan) refl)
      | inr dead ↦ rw (e, dead, scan) (scan-scan entries)
    ]
  ]

  -- A directory that is no link, is a directory and has mode 0700: the hook finds exactly the rooms
  -- that have a file `<room>.active` with the number of a process that `kill` reports a signal to be
  -- delivered to, from 100 on and below 2 ^ 31; and on the directory that it leaves, it finds the
  -- same rooms and removes nothing more. A room whose process runs under another user, so that the
  -- signal is refused, is not among them, where PROTOCOL.md counts it as active.
  pub enumerate_active_rooms_lem :
      (dir : ActiveDir) (topic : Str)
      → dir.is_symlink ≡ false
      → dir.is_dir ≡ true
      → dir.mode ≡ 448
      → (topics : List Str) × (left : ActiveDir) × (enumerate_active_rooms kill (some dir)
          ≡ (ok topics, some left))
        × (AnyOf (λ t. t ≡ topic) topics ↔ AnyOf (IsRoom topic) dir.entries)
        × (enumerate_active_rooms kill (some left) ≡ (ok topics, some left))
  unfolding enumerate_active_rooms
  enumerate_active_rooms_lem dir topic link is_dir mode =
      let (topics, left) = scan kill dir.entries in
      let private : (dir.mode == 448) ≡ true = ground arith in
      (
        topics,
        record dir { entries = left },
        rw (link, is_dir, private, enumerate_active_rooms) refl,
        scan_iff topic dir.entries,
        rw (link, is_dir, private, scan-scan dir.entries, enumerate_active_rooms) refl,
      )
