-- ===== src/Java/Tests.antt =====
-- Core/src/jImpl.cpp and jni.cpp: a priority that is not there.
use ocserver.Common.{◌≡◌, refl, none}
use ocserver.Java.Bridge.{priority_text}

-- Other priorities print nothing.
priority_run : priority_text 8 ≡ none
unfolding priority_text
priority_run = refl
