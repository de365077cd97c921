-- ===== src/Tailer/Monitor/Watch.antt =====
-- `watch` of lib/lib/monitor_file.js: the events of the directory, which are handed on to the
-- handlers of the monitored file.
use node_logstash.Tailer.Monitor.{MonitoredFile, Effect, read_all, on_renamed, on_changed}
use node_logstash.Prelude.{◌&&◌, List, [], if◌then◌else◌, Text, codes, ◌===◌}

-- The handler of `other_changed`: the tailers of files that were renamed read on.
unfoldable pub on_other_changed : MonitoredFile → MonitoredFile × List Effect
on_other_changed m = (m, read_all m.old_fd_tailers)

-- The listener of the directory watcher.
unfoldable pub on_directory : Text → Text → Text → MonitoredFile → MonitoredFile × List Effect
unfolding on_renamed on_changed on_other_changed
on_directory basename event filename m =
    if event === codes "rename" && basename === filename
    then on_renamed m
    else if event === codes "change" && basename === filename
    then on_changed m
    else if event === codes "change"
    then on_other_changed m
    else (m, [])
